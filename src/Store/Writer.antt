-- ===== src/Store/Writer.antt =====
-- crates/moaray-store/src/lib.rs: the bounded channel and the writer thread. A state holds what the
-- senders and the writer share, and where in its loop the writer stands; `advance` takes the writer
-- one channel operation or one batch further, and senders come in between.
use moaray.Base.{
  ℕ, zero, suc, ltb, Bool, true, false, String, Option, none, some, List, [], ◌∷◌, ◌++◌, length,
  if◌then◌else◌, max,
}
use moaray.Base.Result.{Result, ok, err, ◌>>=◌}
use moaray.Core.Usage.{UsageRecord}
use moaray.Store.Database.{Sqlite, init_db, flush_batch}

-- A flush carries the channel that it is acknowledged on.
pub data WriterMsg : Type 0 where
  row : UsageRecord → WriterMsg
  flush : ℕ → WriterMsg
  stop : WriterMsg

-- Where the loop stands: at `recv`, in the greedy drain, before the batch is written, and after the
-- loop, when the receiver is gone.
pub data Phase : Type 0 where
  waiting draining writing stopped : Phase

module _ (D : Sqlite) where
  pub record Store : Type 0 where
    pub capacity : ℕ
    pub batch : ℕ
    pub queue : List WriterMsg
    pub conn : D.Connection
    pub buf : List UsageRecord
    pub stop_seen : Bool
    pub pending_ack : Option ℕ
    pub phase : Phase
    -- the channels acknowledged, latest first
    pub acked : List ℕ
    -- `moaray_usage_dropped_total`
    pub dropped : ℕ
    -- the batches whose insert failed
    pub failures : ℕ

  unfoldable pub new : String → ℕ → ℕ → Result Store D.Failure
  new path capacity batch = do
    conn ← D.open_at path
    ready ← init_db D conn
    ok (record {
      capacity = max capacity 1;
      batch = max batch 1;
      queue = [];
      conn = ready;
      buf = [];
      stop_seen = false;
      pending_ack = none;
      phase = waiting;
      acked = [];
      dropped = 0;
      failures = 0;
    })

  unfoldable pub is_stopped : Store → Bool
  is_stopped s = elim (s.phase) [ stopped ↦ true | _ ↦ false ]

  -- A send finds no room in a full channel, and no receiver once the writer has returned.
  unfoldable pub has_room : Store → Bool
  unfolding is_stopped
  has_room s = if is_stopped s then false else ltb (length s.queue) s.capacity

  unfoldable pub try_send : WriterMsg → Store → Option Store
  unfolding has_room
  try_send m s = if has_room s then some (record s { queue = s.queue ++ m ∷ [] }) else none

  -- `SqliteSink::record`.
  unfoldable pub record_usage : UsageRecord → Store → Store
  unfolding try_send
  record_usage r s = elim (try_send (row r) s) [
    | some sent ↦ sent
    | none ↦ record s { dropped = suc s.dropped }
  ]

  -- The first message of a round: the drain follows whatever it is.
  unfoldable pub take_first : WriterMsg → Store → Store
  take_first (row r) s = record s { buf = s.buf ++ r ∷ []; phase = draining }
  take_first (flush a) s = record s { pending_ack = some a; phase = draining }
  take_first stop s = record s { stop_seen = true; phase = draining }

  -- A later message: a flush or a stop ends the drain.
  unfoldable pub take_next : WriterMsg → Store → Store
  take_next (row r) s = record s { buf = s.buf ++ r ∷ [] }
  take_next (flush a) s = record s { pending_ack = some a; phase = writing }
  take_next stop s = record s { stop_seen = true; phase = writing }

  unfoldable pub receive : Store → Store
  unfolding take_first
  receive s = elim (s.queue) [ [] ↦ s | m ∷ later ↦ take_first m (record s { queue = later }) ]

  unfoldable pub take_ready : Store → Store
  unfolding take_next
  take_ready s = elim (s.queue) [
    | [] ↦ record s { phase = writing }
    | m ∷ later ↦ take_next m (record s { queue = later })
  ]

  unfoldable pub drain_one : Store → Store
  unfolding take_ready
  drain_one s =
      let taken = take_ready s in
      if ltb (length s.buf) s.batch then taken else record s { phase = writing }

  unfoldable pub write : Store → Store
  write s = elim (s.buf) [
    | [] ↦ s
    | r ∷ rs ↦ elim (flush_batch D s.conn s.buf) [
      | ok conn ↦ record s { conn = conn; buf = [] }
      | err e ↦ record s { buf = []; failures = suc s.failures }
    ]
  ]

  unfoldable pub acknowledge : Store → Store
  acknowledge s = elim (s.pending_ack) [
    | none ↦ s
    | some a ↦ record s { pending_ack = none; acked = a ∷ s.acked }
  ]

  -- The loop goes on, or it returns and drops the receiver with what is still queued.
  unfoldable pub end_round : Store → Store
  end_round s =
      if s.stop_seen then record s { phase = stopped; queue = [] } else record s { phase = waiting }

  unfoldable pub advance : Store → Store
  unfolding receive drain_one write acknowledge end_round
  advance s = elim (s.phase) [
    | waiting ↦ receive s
    | draining ↦ drain_one s
    | writing ↦ end_round (acknowledge (write s))
    | stopped ↦ s
  ]

  -- `writer_loop` while no sender comes in between, for a number of steps.
  unfoldable pub writer_loop : ℕ → Store → Store
  unfolding advance
  writer_loop zero s = s
  writer_loop (suc fuel) s = writer_loop fuel (advance s)
