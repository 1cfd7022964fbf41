-- ===== src/Store/Idle.antt =====
-- crates/moaray-store/src/lib.rs: the writer when it is left to itself.
use moaray.Base.{
  ℕ, zero, suc, ◌+◌, ◌*◌, ◌≤◌, ◌<◌, ◌≡◌, refl, sym, ap, subst, ◌∙◌, ◌⊎◌, inl, inr, List, [], length,
  Bool-cases, Option-cases, ltb, arith,
}
use moaray.Base.Result.{Result-cases}
use moaray.Store.Database.{Sqlite, flush_batch}
use moaray.Store.Writer.{
  Phase, WriterMsg, row, flush, stop, waiting, draining, writing, stopped, Store, take_first,
  take_next, take_ready, drain_one, write, acknowledge, end_round, advance, writer_loop,
}
use moaray.Store.Equations.{
  List-cases, Phase-cases, receive_cons, receive_nil, take_ready_cons, take_ready_nil, write_nil,
  write_ok, write_err, advance_waiting, advance_draining, advance_writing, advance_stopped,
  acknowledge-none, acknowledge-some,
}

module _ (D : Sqlite) where
  -- The writer blocks on an empty channel, or has returned.
  pub data IsIdle (s : Store D) : Type 0 where
    blocked : s.phase ≡ waiting → s.queue ≡ [] → IsIdle s
    returned : s.phase ≡ stopped → IsIdle s

  weight : Phase → ℕ
  weight waiting = 0
  weight draining = 2
  weight writing = 1
  weight stopped = 0

  work : Store D → ℕ
  unfolding weight
  work s = 3 * length s.queue + weight s.phase

  take_first-work : (m : WriterMsg) (s : Store D) → work (take_first D m s) ≡ 3 * length s.queue + 2
  unfolding work weight take_first
  take_first-work (row r) s = refl
  take_first-work (flush a) s = refl
  take_first-work stop s = refl

  take_next-work :
      (m : WriterMsg) (s : Store D)
      → s.phase ≡ draining
      → work (take_next D m s) ≤ 3 * length s.queue + 2
  unfolding work weight take_next
  take_next-work (row r) s e = rw e (omega arith)
  take_next-work (flush a) s e = omega arith
  take_next-work stop s e = omega arith

  write_queue : (s : Store D) → (write D s).queue ≡ s.queue
  write_queue s = elim (List-cases s.buf) [
    | inl e ↦ rw (write_nil D s e) refl
    | inr (r, (rs, e)) ↦ elim (Result-cases (flush_batch D s.conn s.buf)) [
      | inl (c, done) ↦ rw (write_ok D s e done) refl
      | inr (f, lost) ↦ rw (write_err D s e lost) refl
    ]
  ]

  acknowledge_queue : (s : Store D) → (acknowledge D s).queue ≡ s.queue
  acknowledge_queue s = elim (Option-cases s.pending_ack) [
    | inl e ↦ rw (acknowledge-none D s e) refl
    | inr (a, e) ↦ rw (acknowledge-some D s e) refl
  ]

  end_round-work : (s : Store D) → work (end_round D s) ≤ 3 * length s.queue
  unfolding work weight end_round
  end_round-work s = elim (Bool-cases s.stop_seen) [
    | inl e ↦ rw e (omega arith)
    | inr e ↦ rw e (omega arith)
  ]

  work_at : (s : Store D) {p : Phase} → s.phase ≡ p → work s ≡ 3 * length s.queue + weight p
  unfolding work
  work_at s e = rw e

  work_of : {s t : Store D} → s ≡ t → work s ≡ work t
  work_of e = ap work e

  length_of : {ms ns : List WriterMsg} → ms ≡ ns → length ms ≡ length ns
  length_of e = ap length e

  -- A ready message, or none, brings the drain forward.
  take_ready-work : (s : Store D) → s.phase ≡ draining → work (take_ready D s) < work s
  unfolding weight
  take_ready-work s e = elim (List-cases s.queue) [
    | inl q ↦ omega (
      arith,
      work_of (take_ready_nil D s q),
      work_at (record s { phase = writing }) refl,
      work_at s e,
    )
    | inr (m, (later, q)) ↦ omega (
      arith,
      work_of (take_ready_cons D m later s q),
      take_next-work m (record s { queue = later }) e,
      work_at s e,
      length_of q,
    )
  ]

  drain_one-work : (s : Store D) → s.phase ≡ draining → work (drain_one D s) < work s
  unfolding drain_one weight
  drain_one-work s e = elim (Bool-cases (ltb (length s.buf) s.batch)) [
    | inl space ↦ rw space (take_ready-work s e)
    | inr filled ↦
        rw filled (omega (arith, work_at (record s { phase = writing }) refl, work_at s e))
  ]

  advance-work : (s : Store D) → IsIdle s ⊎ (work (advance D s) < work s)
  unfolding weight
  advance-work s = elim (Phase-cases s.phase) [
    | inl (inl e) ↦ elim (List-cases s.queue) [
      | inl nothing ↦ inl (blocked e nothing)
      | inr (m, (later, q)) ↦ inr (
          omega (
            arith,
            work_of (advance_waiting D s e),
            work_of (receive_cons D m later s q),
            take_first-work m (record s { queue = later }),
            work_at s e,
            length_of q,
          ))
    ]
    | inl (inr e) ↦ inr (omega (arith, work_of (advance_draining D s e), drain_one-work s e))
    | inr (inl e) ↦ inr (
        omega (
          arith,
          work_of (advance_writing D s e),
          end_round-work (acknowledge D (write D s)),
          length_of (acknowledge_queue (write D s)),
          length_of (write_queue s),
          work_at s e,
        ))
    | inr (inr e) ↦ inl (returned e)
  ]

  pub idle_stays : (s : Store D) → IsIdle s → advance D s ≡ s
  idle_stays s (blocked e q) = advance_waiting D s e ∙ receive_nil D s q
  idle_stays s (returned e) = advance_stopped D s e

  pub writer_loop_idle : (fuel : ℕ) (s : Store D) → IsIdle s → writer_loop D fuel s ≡ s
  unfolding writer_loop
  writer_loop_idle zero s i = refl
  writer_loop_idle (suc fuel) s i =
      ap (writer_loop D fuel) (idle_stays s i) ∙ writer_loop_idle fuel s i

  settles : (fuel : ℕ) (s : Store D) → work s ≤ fuel → IsIdle (writer_loop D fuel s)
  unfolding writer_loop
  settles zero s h = elim (advance-work s) [
    | inl i ↦ i
    | inr less ↦ absurd (none_below (omega (arith, less, h)))
  ]
    where
      none_below : work (advance D s) < 0 → ⊥
      none_below l = omega (arith, l)
  settles (suc fuel) s h = elim (advance-work s) [
    | inl i ↦
        subst IsIdle (sym (ap (writer_loop D fuel) (idle_stays s i) ∙ writer_loop_idle fuel s i)) i
    | inr less ↦ settles fuel (advance D s) (omega (arith, less, h))
  ]

  weight-le : (p : Phase) → weight p ≤ 2
  unfolding weight
  weight-le waiting = omega arith
  weight-le draining = omega arith
  weight-le writing = omega arith
  weight-le stopped = omega arith

  -- Left to itself the writer comes to rest: three steps for each queued message and two for the round
  -- that it is in bring it back to `recv` on an empty channel, or out of its loop.
  pub writer_loop-settles :
      (fuel : ℕ) (s : Store D) → 3 * length s.queue + 2 ≤ fuel → IsIdle (writer_loop D fuel s)
  writer_loop-settles fuel s h =
      settles fuel s (omega (arith, work_at s refl, weight-le s.phase, h))
