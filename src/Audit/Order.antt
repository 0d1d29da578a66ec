-- ===== src/Audit/Order.antt =====
-- The event log of a session: positions are fresh and sequence numbers are used once
-- (append_session_event of kin-node/kin/audit/writer.py).
use mathlib.Core.Option.{some-injective}
use kin_gateway.Prelude.{
  ℕ, ◌<◌, String, ◌≡◌, refl, sym, ◌∙◌, subst, ◌≢◌, ◌⊎◌, inl, inr, Option, none, some, List, [], ◌∷◌,
  ◌++◌, Memᴰ, arith, eq_iff, eq_refl, Option-cases, mem_snoc, find_first-none, find_first,
}
use kin_gateway.Audit.Writer.{
  write_audit_event, has_sequence, check_found, check_sequence_conflict, next_order, NewEvent,
  event_row, insert_event, after_check, append_checked, append_session_event,
}
use kin_gateway.Storage.Services.{Services, Stamp}
use kin_gateway.Storage.Tables.{EventRow, Db}

next_order_bound :
    (rs : List EventRow) (q : EventRow) → Memᴰ q rs → q.event_order < next_order rs q.session_id
unfolding next_order
next_order_bound [] q m = elim m [ ]
next_order_bound (r ∷ rs) q (Memᴰ.head e) = ground (arith, e, eq_refl q.session_id)
next_order_bound (r ∷ rs) q (Memᴰ.tail m) = ground (arith, next_order_bound rs q m)

-- Two events of one session: the later one stands at the greater position, and under another
-- sequence number if their actor is the same.
pub record Precedes (a b : EventRow) : Type 0 where
  pub position : a.session_id ≡ b.session_id → a.event_order < b.event_order
  pub number :
      (n : ℕ)
      → a.session_id ≡ b.session_id
      → a.actor_username ≡ b.actor_username
      → a.sequence ≡ some n
      → b.sequence ≢ some n

-- Each event of a log precedes all that stand behind it.
abbrev pub IsLog : List EventRow → Type 0
IsLog [] = Unit
IsLog (r ∷ rs) = ((q : EventRow) → Memᴰ q rs → Precedes r q) × IsLog rs

IsLog-snoc :
    (rs : List EventRow) (x : EventRow)
    → IsLog rs
    → ((q : EventRow) → Memᴰ q rs → Precedes q x)
    → IsLog (rs ++ x ∷ [])
IsLog-snoc [] x l h = ((λ q. λ (m : Memᴰ q []). elim m [ ]), tt)
IsLog-snoc (r ∷ rs) x l h = (
  (λ q m. elim (mem_snoc rs x q m) [
    | inl there ↦ l.0 q there
    | inr here ↦ subst (λ z. Precedes r z) (sym here) (h r (Memᴰ.head refl))
  ]),
  IsLog-snoc rs x l.1 (λ q m. h q (Memᴰ.tail m)),
)

-- What a call does to the log: nothing, or one row at its end.
pub record Added (sv : Services) (st : Stamp) (ev : NewEvent) (db out : Db) : Type 0 where
  pub row :
      out.session_events
      ≡ db.session_events ++ event_row sv st ev (next_order db.session_events ev.session_id) ∷ []
  pub unused :
      (n : ℕ)
      → ev.sequence ≡ some n
      → find_first (has_sequence ev.session_id ev.actor_username n) db.session_events ≡ none

insert_log :
    (sv : Services) (st audit : Stamp) (ev : NewEvent) (db : Db)
    → ((insert_event sv st audit ev db).1.session_events ≡ db.session_events)
      ⊎ ((insert_event sv st audit ev db).1.session_events
          ≡ db.session_events
            ++ event_row sv st ev (next_order db.session_events ev.session_id) ∷ [])
unfolding insert_event write_audit_event
insert_log sv st audit ev db = ground arith

found_keeps_log :
    (sv : Services) (st audit : Stamp) (ev : NewEvent) (db : Db) (r : EventRow)
    → (after_check sv st audit ev (
        check_found sv audit ev.session_id ev.actor_username ev.payload db
          (some r))).1.session_events
      ≡ db.session_events
unfolding after_check check_found write_audit_event
found_keeps_log sv st audit ev db r = ground arith

insert-Added :
    (sv : Services) (st audit : Stamp) (ev : NewEvent) (db : Db)
    → ((n : ℕ)
        → ev.sequence ≡ some n
        → find_first (has_sequence ev.session_id ev.actor_username n) db.session_events ≡ none)
    → ((insert_event sv st audit ev db).1.session_events ≡ db.session_events)
      ⊎ Added sv st ev db (insert_event sv st audit ev db).1
insert-Added sv st audit ev db h = elim (insert_log sv st audit ev db) [
  | inl same ↦ inl same
  | inr row ↦ inr (record { row = row; unused = h })
]

pub check_free :
    (sv : Services) (st audit : Stamp) (ev : NewEvent) (db : Db)
    → after_check sv st audit ev
        (check_found sv audit ev.session_id ev.actor_username ev.payload db none)
      ≡ insert_event sv st audit ev db
unfolding after_check check_found
check_free sv st audit ev db = refl

append_checked-Added :
    (sv : Services) (st audit : Stamp) (ev : NewEvent) (db : Db) (s : Option ℕ)
    → ev.sequence ≡ s
    → ((append_checked sv st audit ev s db).1.session_events ≡ db.session_events)
      ⊎ Added sv st ev db (append_checked sv st audit ev s db).1
unfolding append_checked check_sequence_conflict
append_checked-Added sv st audit ev db none e = insert-Added sv st audit ev db (λ n q. cc)
append_checked-Added sv st audit ev db (some n) e =
    elim (Option-cases
      (find_first (has_sequence ev.session_id ev.actor_username n) db.session_events)) [
        | inl free ↦
            let unused = λ (m : ℕ) (q : ev.sequence ≡ some m).
              subst
                (λ (k : ℕ).
                  find_first (has_sequence ev.session_id ev.actor_username k) db.session_events
                  ≡ none)
                (some-injective n m (sym e ∙ q)) free in
            rw (free, check_sequence_conflict)
              (rw (check_free sv st audit ev db) (insert-Added sv st audit ev db unused))
        | inr (r, found) ↦
            inl (rw (found, check_sequence_conflict) (found_keeps_log sv st audit ev db r))
      ]

-- Every call of append_session_event leaves the log as it was, or adds one row at its end: at the
-- next position, and under a sequence number that the actor has not used in the session.
pub append-Added :
    (sv : Services) (st audit : Stamp) (ev : NewEvent) (db : Db)
    → ((append_session_event sv st audit ev db).1.session_events ≡ db.session_events)
      ⊎ Added sv st ev db (append_session_event sv st audit ev db).1
unfolding append_session_event
append-Added sv st audit ev db = append_checked-Added sv st audit ev db ev.sequence refl

unused_differs :
    (rs : List EventRow) (q : EventRow) (session actor : String) (n : ℕ)
    → find_first (has_sequence session actor n) rs ≡ none
    → Memᴰ q rs
    → q.session_id ≡ session
    → q.actor_username ≡ actor
    → q.sequence ≢ some n
unfolding has_sequence
unused_differs rs q session actor n free m s a e = ground (
  arith,
  find_first-none (has_sequence session actor n) rs q free m,
  eq_iff q.session_id session,
  eq_iff q.actor_username actor,
)

Added-Precedes :
    (sv : Services) (st : Stamp) (ev : NewEvent) (db out : Db)
    → Added sv st ev db out
    → (q : EventRow) → Memᴰ q db.session_events
    → Precedes q (event_row sv st ev (next_order db.session_events ev.session_id))
unfolding event_row
Added-Precedes sv st ev db out added q m = record {
  position = λ s. rw (← s) (next_order_bound db.session_events q m);
  number = λ n s a e e'.
      unused_differs db.session_events q ev.session_id ev.actor_username n (added.unused n e') m s a
        e;
}

pub Added-IsLog :
    (sv : Services) (st : Stamp) (ev : NewEvent) (db out : Db)
    → Added sv st ev db out
    → IsLog db.session_events
    → IsLog out.session_events
Added-IsLog sv st ev db out added l = rw added.row (
    IsLog-snoc db.session_events (event_row sv st ev (next_order db.session_events ev.session_id)) l
      (Added-Precedes sv st ev db out added))

-- Appending keeps a session's log in order: positions grow, and no actor's sequence number stands
-- twice.
pub append-IsLog :
    (sv : Services) (st audit : Stamp) (ev : NewEvent) (db : Db)
    → IsLog db.session_events
    → IsLog (append_session_event sv st audit ev db).1.session_events
append-IsLog sv st audit ev db l = elim (append-Added sv st audit ev db) [
  | inl same ↦ rw same l
  | inr added ↦ Added-IsLog sv st ev db _ added l
]
