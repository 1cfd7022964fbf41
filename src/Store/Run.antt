-- ===== src/Store/Run.antt =====
-- crates/moaray-store/src/lib.rs: requests, the shutdown handle and the writer in any interleaving.
use moaray.Base.{false, ◌≤◌, ℕ, ◌≡◌, none, some, List, [], ◌∷◌, ◌++◌, map}
use moaray.Core.Usage.{UsageRecord}
use moaray.Store.Row.{Column, params}
use moaray.Store.Database.{Sqlite}
use moaray.Store.Writer.{WriterMsg, row, flush, waiting, Store, try_send, record_usage, advance}
use moaray.Store.Ledger.{records}

-- The message stands in the sequence, with what came before it and after it.
pub record Splits (ms : List WriterMsg) (m : WriterMsg) : Type 0 where
  pub before : List WriterMsg
  pub after : List WriterMsg
  pub split : ms ≡ before ++ m ∷ after

module _ (D : Sqlite) where
  -- What a store that is opened on a table has been through: the messages that it accepted, in order.
  pub data Run (start : Store D) : List WriterMsg → Store D → Type 0 where
    here : Run start [] start
    recorded :
        {ms : List WriterMsg} {s t : Store D} (r : UsageRecord)
        → Run start ms s
        → try_send D (row r) s ≡ some t
        → Run start (ms ++ row r ∷ []) (record_usage D r s)
    refused :
        {ms : List WriterMsg} {s : Store D} (r : UsageRecord)
        → Run start ms s
        → try_send D (row r) s ≡ none
        → Run start ms (record_usage D r s)
    asked :
        {ms : List WriterMsg} {s t : Store D} (m : WriterMsg)
        → Run start ms s
        → try_send D m s ≡ some t
        → Run start (ms ++ m ∷ []) t
    worked : {ms : List WriterMsg} {s : Store D} → Run start ms s → Run start ms (advance D s)

  -- A writer that has just started, on whatever the table holds.
  pub record IsFresh (s : Store D) : Type 0 where
    pub room : 1 ≤ s.capacity
    pub phase : s.phase ≡ waiting
    pub stop_seen : s.stop_seen ≡ false
    pub queue : s.queue ≡ []
    pub buf : s.buf ≡ []
    pub pending_ack : s.pending_ack ≡ none
    pub acked : s.acked ≡ []

  -- Everything accepted before the flush is in the table, behind what it held at the start and with
  -- nothing in between.
  pub record IsDurable (base : List (List Column)) (ms : List WriterMsg) (c : D.Connection) (a : ℕ)
      : Type 0 where
    pub accepted : Splits ms (flush a)
    pub more : List (List Column)
    pub stored : D.rows c ≡ base ++ map params (records accepted.before) ++ more
