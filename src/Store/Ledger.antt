-- ===== src/Store/Ledger.antt =====
-- crates/moaray-store/src/lib.rs: the store, its channel and its buffer as a ledger of rows.
pub mod Refinement
use moaray.Base.{
  ℕ, suc, ◌≡◌, refl, sym, ap, subst, ◌∙◌, ◌⊎◌, some, List, [], ◌∷◌, ◌++◌, map, map-append,
  Option-cases, inl, inr, Bool, true, false, Bool-cases, arith, ltb, length,
}
use mathlib.Core.List.{append-nil, append_assoc}
use moaray.Base.Result.{Result-cases}
use moaray.Core.Usage.{UsageRecord}
use moaray.Store.Row.{Column, params}
use moaray.Store.Database.{Sqlite, flush_batch, flush_batch-rows}
use moaray.Store.Equations.{
  waits, drains, writes, written_phase, written_buf, try_send_open, List-cases, Phase-cases,
  try_send_queue, receive_cons, receive_nil, take_ready_cons, take_ready_nil, write_nil, write_ok,
  write_err, advance_waiting, advance_draining, advance_writing, advance_stopped, recorded_sent,
  recorded_dropped,
}
use moaray.Store.Writer.{
  WriterMsg, row, flush, stop, writing, Store, is_stopped, try_send, record_usage, take_first,
  take_next, take_ready, receive, drain_one, write, acknowledge, end_round, advance,
}

-- The rows that a reader of the table sees, those that were accepted and are not there yet, whether the
-- writer has returned, and how many inserts have failed.
pub record Ledger : Type 0 where
  pub durable : List (List Column)
  pub in_flight : List (List Column)
  pub closed : Bool
  pub failures : ℕ

-- What may become of the rows: one more is accepted, until the writer has returned; the oldest ones in
-- flight become durable together, or are lost together with an insert that fails; nothing else.
pub data Change (l : Ledger) : Ledger → Type 0 where
  accepts :
      (cs : List Column)
      → l.closed ≡ false
      → Change l (record l { in_flight = l.in_flight ++ cs ∷ [] })
  commits :
      (batch later : List (List Column))
      → l.in_flight ≡ batch ++ later
      → Change l (record l { durable = l.durable ++ batch; in_flight = later })
  loses :
      (batch later : List (List Column))
      → l.in_flight ≡ batch ++ later
      → Change l (record l { in_flight = later; failures = suc l.failures })
  rests : Change l l

-- One change; when the writer returns, all that is still in flight after it is abandoned.
pub data Changes (l : Ledger) : Ledger → Type 0 where
  continues : {m : Ledger} → Change l m → Changes l m
  closes :
      {m : Ledger}
      → l.closed ≡ false
      → Change l m
      → Changes l (record m { in_flight = []; closed = true })

abbrev pub records : List WriterMsg → List UsageRecord
records [] = []
records (row r ∷ ms) = r ∷ records ms
records (flush a ∷ ms) = records ms
records (stop ∷ ms) = records ms

pub records-append : (ms ns : List WriterMsg) → records (ms ++ ns) ≡ records ms ++ records ns
records-append [] ns = refl
records-append (row r ∷ ms) ns = ap (λ x. r ∷ x) (records-append ms ns)
records-append (flush a ∷ ms) ns = records-append ms ns
records-append (stop ∷ ms) ns = records-append ms ns

-- What the shutdown handle sends: it holds no row.
abbrev pub IsControl : WriterMsg → Type 0
IsControl m = records (m ∷ []) ≡ []

module _ (D : Sqlite) where
  -- A request records its row, the handle gets a message through, or the writer goes on; in any order.
  pub data Step (s : Store D) : Store D → Type 0 where
    recorded : (r : UsageRecord) → Step s (record_usage D r s)
    asked : (m : WriterMsg) {t : Store D} → IsControl m → try_send D m s ≡ some t → Step s t
    worked : Step s (advance D s)

  abbrev pub ledger : Store D → Ledger
  ledger s = record {
    durable = D.rows s.conn;
    in_flight = map params (s.buf ++ records s.queue);
    closed = is_stopped D s;
    failures = s.failures;
  }
