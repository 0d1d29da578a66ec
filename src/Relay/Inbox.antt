-- ===== src/Relay/Inbox.antt =====
-- What an inbox shows (fetch_inbox of kin-relay/kin_relay/routes.py).
use mathlib.Core.List.Memᴰ as Member
use kin_gateway.Prelude.{
  str_le, ℕ, String, ◌≡◌, refl, sym, ap, ◌∙◌, subst, ◌⊎◌, inl, inr, Bool, true, false, not, none,
  List, [], ◌∷◌, map, Memᴰ, arith, eq_iff, if◌then◌else◌, mem_keep, is_empty, keep, Result, ok, err,
}
use kin_gateway.Relay.Model.{Mail, RelayDb, InboxMessage, Externals, Headers, HttpError}
use kin_gateway.Relay.Routes.{
  authenticate_inbox_request, is_stale, is_current, insert_received, by_received, to_message,
  fetch_rows, inbox_of, fetch_inbox,
}

placed :
    (x y : Mail) (ys inserted : List Mail) (q : Mail) (b : Bool)
    → (Memᴰ q inserted → (q ≡ x) ⊎ Memᴰ q ys)
    → Memᴰ q (if b then x ∷ y ∷ ys else y ∷ inserted)
    → (q ≡ x) ⊎ Memᴰ q (y ∷ ys)
placed x y ys inserted q true inner (Memᴰ.head e) = inl e
placed x y ys inserted q true inner (Memᴰ.tail t) = inr t
placed x y ys inserted q false inner (Memᴰ.head e) = inr (Memᴰ.head e)
placed x y ys inserted q false inner (Memᴰ.tail t) = elim (inner t) [
  | inl e ↦ inl e
  | inr there ↦ inr (Memᴰ.tail there)
]

shown_if :
    (rows : List Mail) (db : RelayDb) (rest : List Mail) (msg : InboxMessage)
    → Memᴰ msg
        (if◌then◌else◌ {A = List InboxMessage × RelayDb}
          (is_empty rows)
          ([], db)
          (map to_message rows, record db { mailbox = rest })).0
    → Memᴰ msg (map to_message rows)
shown_if [] db rest msg m = elim m [ ]
shown_if (r ∷ rs) db rest msg m = m

mem_insert_received :
    (x : Mail) (ms : List Mail) (q : Mail) → Memᴰ q (insert_received x ms) → (q ≡ x) ⊎ Memᴰ q ms
unfolding insert_received
mem_insert_received x [] q (Memᴰ.head e) = inl e
mem_insert_received x [] q (Memᴰ.tail m) = elim m [ ]
mem_insert_received x (y ∷ ys) q m =
    placed x y ys (insert_received x ys) q (str_le x.received_at y.received_at)
      (mem_insert_received x ys q) m

mem_by_received : (ms : List Mail) (q : Mail) → Memᴰ q (by_received ms) → Memᴰ q ms
unfolding by_received
mem_by_received [] q m = elim m [ ]
mem_by_received (x ∷ xs) q m = elim (mem_insert_received x (by_received xs) q m) [
  | inl e ↦ Memᴰ.head e
  | inr there ↦ Memᴰ.tail (mem_by_received xs q there)
]

current_of :
    (user now : String) (m : Mail)
    → is_current user now m ≡ true
    → (m.username ≡ user) × (str_le now m.expires_at ≡ true)
unfolding is_current
current_of user now m h = ground (arith, eq_iff m.username user)

shown_rows :
    (user now : String) (db : RelayDb) (msg : InboxMessage)
    → Memᴰ msg (fetch_rows user now db).0
    → Memᴰ msg (
        map to_message (
          by_received
            (keep (is_current user now) (keep (λ m. not (is_stale user now m)) db.mailbox))))
unfolding fetch_rows
shown_rows user now db msg m =
    shown_if
      (by_received (keep (is_current user now) (keep (λ x. not (is_stale user now x)) db.mailbox)))
      db (keep (λ x. not (is_stale user now x)) db.mailbox) msg m

inbox_rows :
    (ex : Externals) (now : ℕ) (db : RelayDb) (who : Result HttpError String)
    (messages : List InboxMessage) (out : RelayDb)
    → inbox_of ex now db who ≡ (ok messages, out)
    → (user : String) × (who ≡ ok user) × (messages ≡ (fetch_rows user (ex.iso now) db).0)
unfolding inbox_of
inbox_rows ex now db (err e) messages out h = absurd (ground arith)
inbox_rows ex now db (ok user) messages out h = (user, refl, ground arith)

-- Every message that a fetched inbox shows is a stored one that was sent to the authenticated user
-- and has not expired.
pub inbox_is_own :
    (ex : Externals) (now : ℕ) (h : Headers) (db out : RelayDb) (messages : List InboxMessage)
    (msg : InboxMessage)
    → fetch_inbox ex now h db ≡ (ok messages, out)
    → Memᴰ msg messages
    → (m : Mail) × Memᴰ m db.mailbox
      × (to_message m ≡ msg)
      × (authenticate_inbox_request ex now h none db ≡ ok m.username)
      × (str_le (ex.iso now) m.expires_at ≡ true)
unfolding fetch_inbox
inbox_is_own ex now h db out messages msg done there =
    let (user, auth, rows) = inbox_rows ex now db _ messages out done in
    let test = is_current user (ex.iso now) in
    let rest = keep (λ x. not (is_stale user (ex.iso now) x)) db.mailbox in
    let (m, sorted, same) = Member.of_map to_message (by_received (keep test rest)) (
      shown_rows user (ex.iso now) db msg
        (subst (λ (l : List InboxMessage). Memᴰ msg l) rows there)) in
    let (kept, current) = mem_keep test rest m (mem_by_received (keep test rest) m sorted) in
    let (mine, live) = current_of user (ex.iso now) m current in
    (
      m,
      (mem_keep (λ x. not (is_stale user (ex.iso now) x)) db.mailbox m kept).0,
      same,
      auth ∙ ap ok (sym mine),
      live,
    )
