-- ===== src/Relay/Mailbox.antt =====
-- Mail stays until it is acknowledged or expires, and is shown to its owner alone
-- (kin-relay/kin_relay/routes.py).
use mathlib.Core.List.Memᴰ as Member
use kin_gateway.Prelude.{
  str_lt, ℕ, String, ◌≡◌, refl, sym, ap, ◌∙◌, subst, ◌⊎◌, inl, inr, Bool, true, false, not, none,
  some, List, [], ◌∷◌, Memᴰ, arith, eq_iff, if◌then◌else◌, Bool-cases, is_some, is_empty, keep,
  Result, ok, err,
}
use kin_gateway.Relay.Machine.{Request, register, look_up, deliver, fetch, acknowledge, serve}
use kin_gateway.Relay.Model.{Mail, RelayDb, RegisterRequest, Externals, Headers, HttpError}
use kin_gateway.Relay.Routes.{
  find_entry, register_endpoint, new_mail, deliver_to_mailbox, authenticate_inbox_request, is_stale,
  is_current, by_received, fetch_rows, inbox_of, fetch_inbox, is_acked, acked, ack_message,
  acknowledge_inbox,
}

pub mem_keep_of {ℓ} :
    {A : Type ℓ} (p : A → Bool) (xs : List A) (q : A) → Memᴰ q xs → p q ≡ true → Memᴰ q (keep p xs)
mem_keep_of p [] q m h = elim m [ ]
mem_keep_of p (x ∷ xs) q (Memᴰ.head e) h = kept_head (p x) (ap p (sym e) ∙ h) e
  where
    kept_head : (b : Bool) → b ≡ true → q ≡ x → Memᴰ q (if b then x ∷ keep p xs else keep p xs)
    kept_head true t e' = Memᴰ.head e'
    kept_head false t e' = absurd (ground (arith, t))
mem_keep_of p (x ∷ xs) q (Memᴰ.tail m) h = kept_tail (p x) (mem_keep_of p xs q m h)
  where
    kept_tail : (b : Bool) → Memᴰ q (keep p xs) → Memᴰ q (if b then x ∷ keep p xs else keep p xs)
    kept_tail true t = Memᴰ.tail t
    kept_tail false t = t

-- Why a request may remove a message: its owner acknowledges it by its id, or its owner fetches the
-- inbox after it has expired.
pub data Removes (ex : Externals) (db : RelayDb) (m : Mail) : Request → Type 0 where
  by_owner :
      (now : ℕ) (h : Headers) (ids : List ℕ)
      → authenticate_inbox_request ex now h (some (ack_message ex h ids)) db ≡ ok m.username
      → is_acked m.username ids m ≡ true
      → Removes ex db m (acknowledge now h ids)
  by_expiry :
      (now : ℕ) (h : Headers)
      → authenticate_inbox_request ex now h none db ≡ ok m.username
      → str_lt m.expires_at (ex.iso now) ≡ true
      → Removes ex db m (fetch now h)

fetch_keeps :
    (user now : String) (db : RelayDb) (m : Mail)
    → Memᴰ m db.mailbox
    → is_stale user now m ≡ false
    → Memᴰ m (fetch_rows user now db).1.mailbox
unfolding fetch_rows
fetch_keeps user now db m there fresh =
    elim (Bool-cases (
      is_empty (
        by_received
          (keep (is_current user now) (keep (λ x. not (is_stale user now x)) db.mailbox))))) [
            | inl none_left ↦ rw none_left there
            | inr some_left ↦
                rw some_left
                  (mem_keep_of (λ x. not (is_stale user now x)) db.mailbox m there (ap not fresh))
          ]

stale_of :
    (user now : String) (m : Mail)
    → is_stale user now m ≡ true
    → (m.username ≡ user) × (str_lt m.expires_at now ≡ true)
unfolding is_stale
stale_of user now m h = ground (arith, eq_iff m.username user)

fetch-Removes :
    (ex : Externals) (now : ℕ) (h : Headers) (db : RelayDb) (m : Mail)
    (who : Result HttpError String)
    → authenticate_inbox_request ex now h none db ≡ who
    → Memᴰ m db.mailbox
    → Memᴰ m (inbox_of ex now db who).1.mailbox ⊎ Removes ex db m (fetch now h)
unfolding inbox_of
fetch-Removes ex now h db m (err e) auth there = inl there
fetch-Removes ex now h db m (ok user) auth there =
    elim (Bool-cases (is_stale user (ex.iso now) m)) [
      | inr fresh ↦ inl (fetch_keeps user (ex.iso now) db m there fresh)
      | inl stale ↦
          let (mine, late) = stale_of user (ex.iso now) m stale in
          inr (by_expiry now h (auth ∙ ap ok (sym mine)) late)
    ]

acked_of :
    (user : String) (ids : List ℕ) (m : Mail) → is_acked user ids m ≡ true → m.username ≡ user
unfolding is_acked
acked_of user ids m h = ground (arith, eq_iff m.username user)

ack-Removes :
    (ex : Externals) (now : ℕ) (h : Headers) (ids : List ℕ) (db : RelayDb) (m : Mail)
    (who : Result HttpError String)
    → authenticate_inbox_request ex now h (some (ack_message ex h ids)) db ≡ who
    → Memᴰ m db.mailbox
    → Memᴰ m (acked ids db who).1.mailbox ⊎ Removes ex db m (acknowledge now h ids)
unfolding acked
ack-Removes ex now h [] db m (err e) auth there = inl there
ack-Removes ex now h (n ∷ ns) db m (err e) auth there = inl there
ack-Removes ex now h [] db m (ok user) auth there = inl there
ack-Removes ex now h (n ∷ ns) db m (ok user) auth there =
    elim (Bool-cases (is_acked user (n ∷ ns) m)) [
      | inr not_mine ↦
          inl
            (mem_keep_of (λ x. not (is_acked user (n ∷ ns) x)) db.mailbox m there (ap not not_mine))
      | inl mine ↦
          let owner = acked_of user (n ∷ ns) m mine in
          inr (
            by_owner now h (n ∷ ns) (auth ∙ ap ok (sym owner))
              (subst (λ (u : String). is_acked u (n ∷ ns) m ≡ true) (sym owner) mine))
    ]

deliver_keeps :
    (ex : Externals) (now : ℕ) (user sender blob : String) (db : RelayDb) (m : Mail)
    → Memᴰ m db.mailbox
    → Memᴰ m (deliver_to_mailbox ex now user sender blob db).1.mailbox
unfolding deliver_to_mailbox
deliver_keeps ex now user sender blob db m there =
    elim (Bool-cases (is_some (find_entry user db))) [
      | inl known ↦ rw known (Member.append_left (new_mail ex now user sender blob db ∷ []) there)
      | inr unknown ↦ rw unknown there
    ]

register_mail :
    (body : RegisterRequest) (db : RelayDb) → (register_endpoint body db).1.mailbox ≡ db.mailbox
unfolding register_endpoint
register_mail body db = ground arith

-- A request removes a stored message only where the message's owner, authenticated, acknowledges
-- its id, or fetches the inbox after the message has expired.
pub mail_stays :
    (ex : Externals) (db : RelayDb) (r : Request) (m : Mail)
    → Memᴰ m db.mailbox
    → Memᴰ m (serve ex db r).mailbox ⊎ Removes ex db m r
unfolding serve fetch_inbox acknowledge_inbox
mail_stays ex db (register body) m there = inl (rw (register_mail body db) there)
mail_stays ex db (look_up user) m there = inl there
mail_stays ex db (deliver now user sender blob) m there =
    inl (deliver_keeps ex now user sender blob db m there)
mail_stays ex db (fetch now h) m there = fetch-Removes ex now h db m _ refl there
mail_stays ex db (acknowledge now h ids) m there = ack-Removes ex now h ids db m _ refl there
