-- ===== src/Transport/Queue/Undue.antt =====
-- What a sweep of retry_outbound_queue (kin-node/kin/transport/v11.py) leaves alone.
use kin_gateway.Prelude.{
  String, ◌≡◌, refl, sym, ap, ◌∙◌, ◌≢◌, inl, inr, true, false, Option, List, [], ◌∷◌, Memᴰ,
  Option-cases, mem_keep, keep, Result, ok, err,
}
use kin_gateway.Session.Reconstruct.{find_session}
use kin_gateway.Storage.Tables.{QueueRow, Db}
use kin_gateway.Transport.Queue.Retry.{
  Courier, SweepTime, Counts, SweepFault, sweep_row, sweep_rows, is_due, with_expiry,
  retry_outbound_queue,
}
use kin_gateway.Transport.Queue.Spares.{sweep_row-Spares}

-- queue_id is the primary key.
abbrev pub UniqueIds : List QueueRow → Type 0
UniqueIds rows = (a b : QueueRow) → Memᴰ a rows → Memᴰ b rows → a.queue_id ≡ b.queue_id → a ≡ b

sweep_rows-mem :
    (c : Courier) (t : SweepTime) (rows : List (QueueRow × Option String)) (q : QueueRow)
    (a : Result SweepFault Counts × Db)
    → ((p : QueueRow × Option String) → Memᴰ p rows → q.queue_id ≢ p.0.queue_id)
    → Memᴰ q a.1.outbound_envelope_queue
    → Memᴰ q (sweep_rows c t rows a).1.outbound_envelope_queue
unfolding sweep_rows
sweep_rows-mem c t [] q (r, db) differs m = m
sweep_rows-mem c t (p ∷ rows) q (err f, db) differs m = m
sweep_rows-mem c t ((p, expires) ∷ rows) q (ok n, db) differs m =
    sweep_rows-mem c t rows q (sweep_row c t (p, expires) n db) (λ z h. differs z (Memᴰ.tail h))
      (sweep_row-Spares c t p expires n db q (differs (p, expires) (Memᴰ.head refl)) m)

with_expiry-mem :
    (db : Db) (rows : List QueueRow) (p : QueueRow × Option String)
    → Memᴰ p (with_expiry db rows)
    → Memᴰ p.0 rows
unfolding with_expiry
with_expiry-mem db [] p m = elim m [ ]
with_expiry-mem db (q ∷ qs) p m = elim (Option-cases (find_session db q.session_id)) [
  | inl gone ↦ Memᴰ.tail (with_expiry-mem db qs p (rw (with_expiry, gone) at m))
  | inr (r, found) ↦ elim (rw (with_expiry, found) at m) [
    | Memᴰ.head e ↦ Memᴰ.head (ap (λ (z : QueueRow × Option String). z.0) e)
    | Memᴰ.tail m' ↦ Memᴰ.tail (with_expiry-mem db qs p m')
  ]
]

-- A sweep leaves each row that is not due as it is: a row that has left the state `pending`, or
-- whose next attempt is later, stands in the queue unchanged afterwards, also where the sweep ends
-- in an exception. The ids of the queue's rows are distinct.
pub undue_rows_stay :
    (c : Courier) (t : SweepTime) (db : Db) (q : QueueRow)
    → UniqueIds db.outbound_envelope_queue
    → Memᴰ q db.outbound_envelope_queue
    → is_due t q ≡ false
    → Memᴰ q (retry_outbound_queue c t db).1.outbound_envelope_queue
unfolding retry_outbound_queue
undue_rows_stay c t db q unique there undue =
    sweep_rows-mem c t _ q _
      (λ p m. λ same.
        let due =
          mem_keep (is_due t) db.outbound_envelope_queue p.0
            (with_expiry-mem db (keep (is_due t) db.outbound_envelope_queue) p m) in
        let e = unique q p.0 there due.0 same in
        let clash : true ≡ false = sym due.1 ∙ ap (is_due t) (sym e) ∙ undue in cc)
      there
