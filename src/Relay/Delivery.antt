-- ===== src/Relay/Delivery.antt =====
-- From delivery to inbox (deliver_to_mailbox and fetch_inbox of kin-relay/kin_relay/routes.py).
use mathlib.Core.List.Memᴰ as Member
use kin_gateway.Prelude.{
  str_le, ℕ, ◌+◌, ◌≤◌, String, ◌≡◌, refl, sym, ap, subst, ◌≢◌, Bool, true, false, not, none, List,
  [], ◌∷◌, ◌++◌, map, Memᴰ, arith, eq_refl, if◌then◌else◌, is_empty, keep, Result, ok, err,
}
use kin_gateway.Relay.Mailbox.{mem_keep_of}
use kin_gateway.Relay.Model.{Mail, RelayDb, InboxMessage, Externals, Headers, HttpError}
use kin_gateway.Relay.Routes.{
  retention, new_mail, deliver_to_mailbox, authenticate_inbox_request, is_stale, is_current,
  insert_received, by_received, to_message, fetch_rows, inbox_of, fetch_inbox,
}

either_way {ℓ} :
    {A : Type ℓ} (xs ys : List A) (q : A) (b : Bool)
    → Memᴰ q xs
    → Memᴰ q ys
    → Memᴰ q (if b then xs else ys)
either_way xs ys q true h k = h
either_way xs ys q false h k = k

insert_received_new : (x : Mail) (ms : List Mail) → Memᴰ x (insert_received x ms)
unfolding insert_received
insert_received_new x [] = Memᴰ.head refl
insert_received_new x (y ∷ ys) =
    either_way (x ∷ y ∷ ys) (y ∷ insert_received x ys) x (str_le x.received_at y.received_at)
      (Memᴰ.head refl) (Memᴰ.tail (insert_received_new x ys))

insert_received_old :
    (x : Mail) (ms : List Mail) (q : Mail) → Memᴰ q ms → Memᴰ q (insert_received x ms)
unfolding insert_received
insert_received_old x [] q m = elim m [ ]
insert_received_old x (y ∷ ys) q (Memᴰ.head e) =
    either_way (x ∷ y ∷ ys) (y ∷ insert_received x ys) q (str_le x.received_at y.received_at)
      (Memᴰ.tail (Memᴰ.head e)) (Memᴰ.head e)
insert_received_old x (y ∷ ys) q (Memᴰ.tail m) =
    either_way (x ∷ y ∷ ys) (y ∷ insert_received x ys) q (str_le x.received_at y.received_at)
      (Memᴰ.tail (Memᴰ.tail m)) (Memᴰ.tail (insert_received_old x ys q m))

by_received_mem : (ms : List Mail) (q : Mail) → Memᴰ q ms → Memᴰ q (by_received ms)
unfolding by_received
by_received_mem [] q m = elim m [ ]
by_received_mem (x ∷ xs) q (Memᴰ.head e) =
    subst (λ z. Memᴰ z (insert_received x (by_received xs))) (sym e)
      (insert_received_new x (by_received xs))
by_received_mem (x ∷ xs) q (Memᴰ.tail m) =
    insert_received_old x (by_received xs) q (by_received_mem xs q m)

not_empty {ℓ} : {A : Type ℓ} (xs : List A) (q : A) → Memᴰ q xs → is_empty xs ≡ false
not_empty [] q m = elim m [ ]
not_empty (x ∷ xs) q m = refl

shown_mail :
    (user now : String) (db : RelayDb) (m : Mail)
    → Memᴰ m db.mailbox
    → is_stale user now m ≡ false
    → is_current user now m ≡ true
    → Memᴰ (to_message m) (fetch_rows user now db).0
unfolding fetch_rows
shown_mail user now db m there fresh current =
    let rest = keep (λ x. not (is_stale user now x)) db.mailbox in
    let kept = mem_keep_of (λ x. not (is_stale user now x)) db.mailbox m there (ap not fresh) in
    let row =
      by_received_mem (keep (is_current user now) rest) m
        (mem_keep_of (is_current user now) rest m kept current) in
    rw (not_empty (by_received (keep (is_current user now) rest)) m row) (Member.map to_message row)

new_mail_current :
    (ex : Externals) (now later : ℕ) (user sender blob : String) (db : RelayDb)
    → later ≤ now + retention
    → (is_stale user (ex.iso later) (new_mail ex now user sender blob db) ≡ false)
      × (is_current user (ex.iso later) (new_mail ex now user sender blob db) ≡ true)
unfolding is_stale is_current new_mail
new_mail_current ex now later user sender blob db h = (
  ground (arith, ex.iso-ordered later (now + retention) h),
  ground (arith, ex.iso-ordered later (now + retention) h, eq_refl user),
)

queued_rows :
    (ex : Externals) (now : ℕ) (user sender blob : String) (db after : RelayDb)
    → deliver_to_mailbox ex now user sender blob db ≡ (ok tt, after)
    → after.mailbox ≡ db.mailbox ++ new_mail ex now user sender blob db ∷ []
unfolding deliver_to_mailbox
queued_rows ex now user sender blob db after h = ground arith

-- A message that the relay queues is shown when its owner, authenticated, fetches the inbox at any
-- time up to seven days later, if no other request comes between.
pub delivered_is_shown :
    (ex : Externals) (now later : ℕ) (user sender blob : String) (h : Headers) (db after : RelayDb)
    → deliver_to_mailbox ex now user sender blob db ≡ (ok tt, after)
    → authenticate_inbox_request ex later h none after ≡ ok user
    → later ≤ now + retention
    → (messages : List InboxMessage) × ((fetch_inbox ex later h after).0 ≡ ok messages)
      × Memᴰ (to_message (new_mail ex now user sender blob db)) messages
unfolding fetch_inbox inbox_of
delivered_is_shown ex now later user sender blob h db after done auth soon =
    let (fresh, current) = new_mail_current ex now later user sender blob db soon in
    (
      (fetch_rows user (ex.iso later) after).0,
      rw auth,
      shown_mail user (ex.iso later) after (new_mail ex now user sender blob db)
          (subst (λ (ms : List Mail). Memᴰ (new_mail ex now user sender blob db) ms)
            (sym (queued_rows ex now user sender blob db after done))
            (Member.append_right db.mailbox (Memᴰ.head refl)))
          fresh current,
    )

map_not_empty {ℓ κ} :
    {A : Type ℓ} {B : Type κ} (f : A → B) (xs : List A) → is_empty xs ≡ false → map f xs ≢ []
map_not_empty f [] h = cc
map_not_empty f (x ∷ xs) h = λ e. cc e

empty_rows : (user now : String) (db out : RelayDb) → fetch_rows user now db ≡ ([], out) → out ≡ db
unfolding fetch_rows
empty_rows user now db out h = ground (
  arith,
  map_not_empty to_message
      (by_received (keep (is_current user now) (keep (λ x. not (is_stale user now x)) db.mailbox))),
)

empty_inbox :
    (ex : Externals) (now : ℕ) (db : RelayDb) (who : Result HttpError String) (out : RelayDb)
    → inbox_of ex now db who ≡ (ok [], out)
    → out ≡ db
unfolding inbox_of
empty_inbox ex now db (err e) out h = cc
empty_inbox ex now db (ok user) out h = empty_rows user (ex.iso now) db out (ground arith)

-- A fetch that shows no message deletes none: the expired messages that it set out to delete stay.
pub empty_fetch_deletes_nothing :
    (ex : Externals) (now : ℕ) (h : Headers) (db out : RelayDb)
    → fetch_inbox ex now h db ≡ (ok [], out)
    → out ≡ db
unfolding fetch_inbox
empty_fetch_deletes_nothing ex now h db out done =
    empty_inbox ex now db (authenticate_inbox_request ex now h none db) out done
