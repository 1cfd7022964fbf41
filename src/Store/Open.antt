-- ===== src/Store/Open.antt =====
-- crates/moaray-store/src/lib.rs: a writer that nobody has told to stop.
use moaray.Base.{
  ℕ, zero, suc, ◌≤◌, ◌≡◌, ◌≢◌, refl, sym, subst, ◌∙◌, inl, inr, false, none, some, List, [], ◌∷◌,
  ◌++◌, length, All, All-append, Bool-cases, ltb, arith,
}
use moaray.Store.Database.{Sqlite}
use moaray.Store.Writer.{
  Phase, WriterMsg, row, flush, stop, waiting, draining, writing, stopped, Store, try_send,
  take_first, take_next, drain_one, write, acknowledge, end_round, advance, writer_loop,
}
use moaray.Store.Equations.{
  List-cases, Phase-cases, try_send_queue, receive_cons, receive_nil, take_ready_cons,
  take_ready_nil, advance_waiting, advance_draining, advance_writing, recorded_sent,
  recorded_dropped,
}
use moaray.Store.Run.{Run, here, recorded, refused, asked, worked, IsFresh}

abbrev pub IsNoStop : WriterMsg → Type 0
IsNoStop m = m ≢ stop

module _ (D : Sqlite) where
  -- The loop goes on, and whenever it waits, its buffer is empty and no acknowledgement is due.
  pub record IsOpen (s : Store D) : Type 0 where
    pub room : 1 ≤ s.capacity
    pub goes_on : s.stop_seen ≡ false
    pub phase : s.phase ≢ stopped
    pub settled : s.phase ≡ waiting → s.buf ≡ []
    pub unasked : s.phase ≡ waiting → s.pending_ack ≡ none
    pub queue : All IsNoStop s.queue

  take_first-IsOpen :
      (m : WriterMsg) (s : Store D) → IsNoStop m → IsOpen s → IsOpen (take_first D m s)
  unfolding take_first
  take_first-IsOpen (row r) s n v = ground arith
  take_first-IsOpen (flush a) s n v = ground arith
  take_first-IsOpen stop s n v = absurd (n refl)

  take_next-IsOpen :
      (m : WriterMsg) (s : Store D)
      → s.phase ≡ draining
      → IsNoStop m
      → IsOpen s
      → IsOpen (take_next D m s)
  unfolding take_next
  take_next-IsOpen (row r) s e n v = ground arith
  take_next-IsOpen (flush a) s e n v = ground arith
  take_next-IsOpen stop s e n v = absurd (n refl)

  write-IsOpen :
      (s : Store D)
      → s.phase ≡ writing
      → IsOpen s
      → IsOpen (end_round D (acknowledge D (write D s)))
  unfolding end_round acknowledge write
  write-IsOpen s e v = ground arith

  becomes : {s t : Store D} → t ≡ s → IsOpen s → IsOpen t
  becomes e v = subst IsOpen (sym e) v

  shorter :
      (s : Store D) {m : WriterMsg} {later : List WriterMsg}
      → s.queue ≡ m ∷ later
      → IsOpen s
      → IsOpen (record s { queue = later })
  shorter s e v = record {
    room = v.room;
    goes_on = v.goes_on;
    phase = v.phase;
    settled = v.settled;
    unasked = v.unasked;
    queue = (subst (All IsNoStop) e v.queue).1;
  }

  first_goes_on :
      (s : Store D) {m : WriterMsg} {later : List WriterMsg}
      → s.queue ≡ m ∷ later
      → IsOpen s
      → IsNoStop m
  first_goes_on s e v = (subst (All IsNoStop) e v.queue).0

  to_writing : (s : Store D) → IsOpen s → IsOpen (record s { phase = writing })
  to_writing s v = ground arith

  advance-IsOpen : (s : Store D) → IsOpen s → IsOpen (advance D s)
  unfolding drain_one
  advance-IsOpen s v = elim (Phase-cases s.phase) [
    | inl (inl e) ↦ elim (List-cases s.queue) [
      | inl q ↦ becomes (advance_waiting D s e ∙ receive_nil D s q) v
      | inr (m, (later, q)) ↦
          becomes (advance_waiting D s e ∙ receive_cons D m later s q)
            (take_first-IsOpen m _ (first_goes_on s q v) (shorter s q v))
    ]
    | inl (inr e) ↦
        becomes (advance_draining D s e) (elim (Bool-cases (ltb (length s.buf) s.batch)) [
          | inr filled ↦ rw filled (to_writing s v)
          | inl space ↦ rw space (elim (List-cases s.queue) [
            | inl q ↦ becomes (take_ready_nil D s q) (to_writing s v)
            | inr (m, (later, q)) ↦
                becomes (take_ready_cons D m later s q)
                  (take_next-IsOpen m _ e (first_goes_on s q v) (shorter s q v))
          ])
        ])
    | inr (inl e) ↦ becomes (advance_writing D s e) (write-IsOpen s e v)
    | inr (inr e) ↦ absurd (v.phase e)
  ]

  pub sent-IsOpen :
      (m : WriterMsg) (s : Store D) {t : Store D}
      → try_send D m s ≡ some t
      → IsNoStop m
      → IsOpen s
      → IsOpen t
  sent-IsOpen m s e n v = becomes (try_send_queue D m s e) (record {
    room = v.room;
    goes_on = v.goes_on;
    phase = v.phase;
    settled = v.settled;
    unasked = v.unasked;
    queue = All-append IsNoStop s.queue (m ∷ []) v.queue (n, tt);
  })

  pub writer_loop-IsOpen : (fuel : ℕ) (s : Store D) → IsOpen s → IsOpen (writer_loop D fuel s)
  unfolding writer_loop
  writer_loop-IsOpen zero s v = v
  writer_loop-IsOpen (suc fuel) s v = writer_loop-IsOpen fuel (advance D s) (advance-IsOpen s v)

  fresh-IsOpen : (s : Store D) → IsFresh D s → IsOpen s
  fresh-IsOpen s v = record {
    room = v.room;
    goes_on = v.stop_seen;
    phase = λ h. waiting-ne-stopped (sym v.phase ∙ h);
    settled = λ h. v.buf;
    unasked = λ h. v.pending_ack;
    queue = rw v.queue tt;
  }
    where
      waiting-ne-stopped : ◌≡◌ {A = Phase} waiting stopped → ⊥
      waiting-ne-stopped h = cc

  All-last :
      (ms : List WriterMsg) {m : WriterMsg}
      → All IsNoStop (ms ++ m ∷ [])
      → All IsNoStop ms × IsNoStop m
  All-last [] h = (tt, h.0)
  All-last (n ∷ ms) h = let p = All-last ms h.1 in ((h.0, p.0), p.1)

  pub Run-IsOpen :
      {start s : Store D} {ms : List WriterMsg}
      → IsFresh D start
      → Run D start ms s
      → All IsNoStop ms
      → IsOpen s
  Run-IsOpen {start} v here n = fresh-IsOpen start v
  Run-IsOpen v (recorded {ms = ms} {s = s} r run e) n =
      becomes (recorded_sent D r s e)
        (sent-IsOpen (row r) s e (All-last ms n).1 (Run-IsOpen v run (All-last ms n).0))
  Run-IsOpen v (refused {s = s} r run e) n =
      let o = Run-IsOpen v run n in
      becomes (recorded_dropped D r s e) (record {
        room = o.room;
        goes_on = o.goes_on;
        phase = o.phase;
        settled = o.settled;
        unasked = o.unasked;
        queue = o.queue;
      })
  Run-IsOpen v (asked {ms = ms} {s = s} m run e) n =
      sent-IsOpen m s e (All-last ms n).1 (Run-IsOpen v run (All-last ms n).0)
  Run-IsOpen v (worked {s = s} run) n = advance-IsOpen s (Run-IsOpen v run n)
