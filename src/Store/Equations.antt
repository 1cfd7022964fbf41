-- ===== src/Store/Equations.antt =====
-- crates/moaray-store/src/lib.rs: what each operation of the store computes, by the case that it is in.
use moaray.Base.{
  ℕ, suc, ◌≡◌, refl, ◌⊎◌, inl, inr, false, Option, none, some, List, [], ◌∷◌, ◌++◌, Bool-cases,
  arith,
}
use moaray.Base.Result.{ok, err, Result-cases}
use moaray.Core.Usage.{UsageRecord}
use moaray.Store.Database.{Sqlite, flush_batch}
use moaray.Store.Writer.{
  Phase, WriterMsg, row, waiting, draining, writing, stopped, Store, is_stopped, has_room, try_send,
  record_usage, take_first, take_next, take_ready, receive, drain_one, write, acknowledge,
  end_round, advance,
}

pub List-cases :
    {A : Type 0} (xs : List A) → (xs ≡ []) ⊎ ((x : A) × ((ys : List A) × (xs ≡ x ∷ ys)))
List-cases [] = inl refl
List-cases (x ∷ xs) = inr (x, (xs, refl))

pub Phase-cases : (p : Phase) → ((p ≡ waiting) ⊎ (p ≡ draining)) ⊎ ((p ≡ writing) ⊎ (p ≡ stopped))
Phase-cases waiting = inl (inl refl)
Phase-cases draining = inl (inr refl)
Phase-cases writing = inr (inl refl)
Phase-cases stopped = inr (inr refl)

module _ (D : Sqlite) where
  pub try_send_queue :
      (m : WriterMsg) (s : Store D) {t : Store D}
      → try_send D m s ≡ some t
      → t ≡ record s { queue = s.queue ++ m ∷ [] }
  unfolding try_send
  try_send_queue m s h = elim (Bool-cases (has_room D s)) [
    | inl room ↦ ground arith
    | inr full ↦ ground arith
  ]

  pub receive_cons :
      (m : WriterMsg) (later : List WriterMsg) (s : Store D)
      → s.queue ≡ m ∷ later
      → receive D s ≡ take_first D m (record s { queue = later })
  unfolding receive
  receive_cons m later s e = rw e

  pub receive_nil : (s : Store D) → s.queue ≡ [] → receive D s ≡ s
  unfolding receive
  receive_nil s e = rw e

  pub take_ready_cons :
      (m : WriterMsg) (later : List WriterMsg) (s : Store D)
      → s.queue ≡ m ∷ later
      → take_ready D s ≡ take_next D m (record s { queue = later })
  unfolding take_ready
  take_ready_cons m later s e = rw e

  pub take_ready_nil : (s : Store D) → s.queue ≡ [] → take_ready D s ≡ record s { phase = writing }
  unfolding take_ready
  take_ready_nil s e = rw e

  pub write_nil : (s : Store D) → s.buf ≡ [] → write D s ≡ s
  unfolding write
  write_nil s e = rw e

  pub write_ok :
      (s : Store D) {r : UsageRecord} {rs : List UsageRecord} {c : D.Connection}
      → s.buf ≡ r ∷ rs
      → flush_batch D s.conn s.buf ≡ ok c
      → write D s ≡ record s { conn = c; buf = [] }
  unfolding write
  write_ok s e f = ground arith

  pub write_err :
      (s : Store D) {r : UsageRecord} {rs : List UsageRecord} {f : D.Failure}
      → s.buf ≡ r ∷ rs
      → flush_batch D s.conn s.buf ≡ err f
      → write D s ≡ record s { buf = []; failures = suc s.failures }
  unfolding write
  write_err s e f = ground arith

  pub advance_waiting : (s : Store D) → s.phase ≡ waiting → advance D s ≡ receive D s
  unfolding advance
  advance_waiting s e = rw e

  pub advance_draining : (s : Store D) → s.phase ≡ draining → advance D s ≡ drain_one D s
  unfolding advance
  advance_draining s e = rw e

  pub advance_writing :
      (s : Store D) → s.phase ≡ writing → advance D s ≡ end_round D (acknowledge D (write D s))
  unfolding advance
  advance_writing s e = rw e

  pub advance_stopped : (s : Store D) → s.phase ≡ stopped → advance D s ≡ s
  unfolding advance
  advance_stopped s e = rw e

  pub recorded_sent :
      (r : UsageRecord) (s : Store D) {t : Store D}
      → try_send D (row r) s ≡ some t
      → record_usage D r s ≡ t
  unfolding record_usage try_send
  recorded_sent r s e = ground arith

  pub recorded_dropped :
      (r : UsageRecord) (s : Store D)
      → try_send D (row r) s ≡ none
      → record_usage D r s ≡ record s { dropped = suc s.dropped }
  unfolding record_usage try_send
  recorded_dropped r s e = ground arith

  pub acknowledge-none : (s : Store D) → s.pending_ack ≡ none → acknowledge D s ≡ s
  unfolding acknowledge
  acknowledge-none s e = rw e

  pub acknowledge-some :
      (s : Store D) {a : ℕ}
      → s.pending_ack ≡ some a
      → acknowledge D s ≡ record s { pending_ack = none; acked = a ∷ s.acked }
  unfolding acknowledge
  acknowledge-some s e = rw e

  pub write_buf : (s : Store D) → (write D s).buf ≡ []
  write_buf s = elim (List-cases s.buf) [
    | inl e ↦ rw (write_nil s e) e
    | inr (r, (rs, e)) ↦ elim (Result-cases (flush_batch D s.conn s.buf)) [
      | inl (c, done) ↦ rw (write_ok s e done) refl
      | inr (f, lost) ↦ rw (write_err s e lost) refl
    ]
  ]

  pub written_buf : (s : Store D) → (acknowledge D (write D s)).buf ≡ []
  unfolding acknowledge
  written_buf s = ground (arith, write_buf s)

  pub written_phase : (s : Store D) → (acknowledge D (write D s)).phase ≡ s.phase
  unfolding acknowledge write
  written_phase s = ground arith

  pub end_round_on :
      (s : Store D) → s.stop_seen ≡ false → end_round D s ≡ record s { phase = waiting }
  unfolding end_round
  end_round_on s e = rw e refl

  pub waits : (s : Store D) → s.phase ≡ waiting → is_stopped D s ≡ false
  unfolding is_stopped
  waits s e = rw e refl

  pub drains : (s : Store D) → s.phase ≡ draining → is_stopped D s ≡ false
  unfolding is_stopped
  drains s e = rw e refl

  pub writes : (s : Store D) → s.phase ≡ writing → is_stopped D s ≡ false
  unfolding is_stopped
  writes s e = rw e refl

  pub try_send_open :
      (m : WriterMsg) (s : Store D) {t : Store D} → try_send D m s ≡ some t → is_stopped D s ≡ false
  unfolding try_send has_room
  try_send_open m s h = ground arith

pub none-ne-some : {A : Type 0} {a : A} → ◌≡◌ {A = Option A} none (some a) → ⊥
none-ne-some h = cc

pub suc-ne-zero : {n : ℕ} → suc n ≡ 0 → ⊥
suc-ne-zero h = omega (arith, h)
