-- ===== src/Store/Shutdown.antt =====
-- crates/moaray-store/src/lib.rs: `flush_and_join`, after the server has drained. How far the writer
-- gets before each deadline is given; a deadline that passes early is a small number.
use moaray.Base.{
  ℕ, zero, suc, ◌+◌, ◌*◌, ◌≤◌, ◌≡◌, refl, sym, ap, ◌∙◌, Bool, true, false, none, some, List, [],
  ◌∷◌, ◌++◌, length, map, All, arith,
}
use mathlib.Core.List.{append-nil}
use moaray.Store.Row.{params}
use moaray.Store.Database.{Sqlite}
use moaray.Store.Writer.{
  WriterMsg, flush, stop, waiting, stopped, Store, is_stopped, has_room, try_send, receive,
  take_first, take_ready, drain_one, write, acknowledge, end_round, advance, writer_loop,
}
use moaray.Store.Ledger.{records, records-append}
use moaray.Store.Run.{Run, asked, worked, IsFresh}
use moaray.Store.Kept.{Kept}
use moaray.Store.Ordered.{Run-Kept}
use moaray.Store.Idle.{blocked, returned, writer_loop-settles, writer_loop_idle}
use moaray.Store.Open.{IsNoStop, IsOpen, Run-IsOpen, sent-IsOpen, writer_loop-IsOpen}

-- What the writer does until there is room for the flush, until the acknowledgement, until there is
-- room for the stop, and until the join gives up.
pub record Deadlines : Type 0 where
  pub flush_room : ℕ
  pub flush_ack : ℕ
  pub stop_room : ℕ
  pub join : ℕ

module _ (D : Sqlite) where
  -- `send_deadline`, and what the handle waits for when the message went in.
  unfoldable pub send_deadline : WriterMsg → ℕ → ℕ → Store D → Store D
  unfolding try_send writer_loop
  send_deadline m room wait s =
      let s1 = writer_loop D room s in
      elim (try_send D m s1) [ none ↦ s1 | some sent ↦ writer_loop D wait sent ]

  -- The writer has been joined when the flag is true, and is detached otherwise.
  unfoldable pub flush_and_join : ℕ → Deadlines → Store D → Store D × Bool
  unfolding send_deadline is_stopped
  flush_and_join ack p s =
      let flushed = send_deadline (flush ack) p.flush_room p.flush_ack s in
      let ended = send_deadline stop p.stop_room p.join flushed in (ended, is_stopped D ended)

  Run-writer_loop :
      (fuel : ℕ) {start s : Store D} {ms : List WriterMsg}
      → Run D start ms s
      → Run D start ms (writer_loop D fuel s)
  unfolding writer_loop
  Run-writer_loop zero run = run
  Run-writer_loop (suc fuel) run = Run-writer_loop fuel (worked run)

  -- An open writer that is left to itself ends up waiting, with nothing queued or buffered.
  pub record IsRested (s : Store D) : Type 0 where
    pub phase : s.phase ≡ waiting
    pub queue : s.queue ≡ []
    pub buf : s.buf ≡ []
    pub unasked : s.pending_ack ≡ none
    pub goes_on : s.stop_seen ≡ false
    pub room : 1 ≤ s.capacity

  rested :
      (fuel : ℕ) (s : Store D)
      → IsOpen D s
      → 3 * length s.queue + 2 ≤ fuel
      → IsRested (writer_loop D fuel s)
  rested fuel s v h = elim (writer_loop-settles D fuel s h) [
    | blocked e q ↦ record {
      phase = e;
      queue = q;
      buf = (writer_loop-IsOpen D fuel s v).settled e;
      unasked = (writer_loop-IsOpen D fuel s v).unasked e;
      goes_on = (writer_loop-IsOpen D fuel s v).goes_on;
      room = (writer_loop-IsOpen D fuel s v).room;
    }
    | returned e ↦ absurd ((writer_loop-IsOpen D fuel s v).phase e)
  ]

  rested-has_room : (s : Store D) → IsRested s → has_room D s ≡ true
  unfolding has_room is_stopped
  rested-has_room s v = ground arith

  rested-try_send :
      (m : WriterMsg) (s : Store D)
      → IsRested s
      → try_send D m s ≡ some (record s { queue = m ∷ [] })
  unfolding try_send
  rested-try_send m s v = rw (rested-has_room s v, v.queue) refl

  stopped_now : Store D → Store D
  stopped_now s = record s { queue = []; stop_seen = true; phase = stopped }

  stop_advances :
      (s : Store D)
      → IsRested s
      → advance D (advance D (advance D (record s { queue = stop ∷ [] }))) ≡ stopped_now s
  unfolding advance receive take_first drain_one take_ready write acknowledge end_round stopped_now
  stop_advances s v = ground arith

  stops :
      (fuel : ℕ) (s : Store D)
      → IsRested s
      → 3 ≤ fuel
      → writer_loop D fuel (record s { queue = stop ∷ [] }) ≡ stopped_now s
  unfolding writer_loop stopped_now
  stops zero s v h = absurd (omega (arith, h))
  stops (suc zero) s v h = absurd (omega (arith, h))
  stops (suc (suc zero)) s v h = absurd (omega (arith, h))
  stops (suc (suc (suc fuel))) s v h =
      ap (writer_loop D fuel) (stop_advances s v)
      ∙ writer_loop_idle D fuel (stopped_now s) (returned refl)

  -- Everything accepted stands in the table once the writer rests.
  stored_all :
      (start s : Store D) (ms : List WriterMsg)
      → IsFresh D start
      → Run D start ms s
      → IsRested s
      → s.failures ≡ 0
      → D.rows s.conn ≡ D.rows start.conn ++ map params (records ms)
  stored_all start s ms fresh run v f =
      sym (append-nil (D.rows s.conn))
      ∙ ap (λ x. D.rows s.conn ++ map params x) (sym v.buf)
      ∙ k.stored f
      ∙ ap (λ x. D.rows start.conn ++ map params (records x))
          (sym (append-nil k.handled)
            ∙ ap (λ x. k.handled ++ x) (sym v.queue ∙ k.queued (λ h. cc (v.phase, h)))
            ∙ sym k.fifo)
    where
      k : Kept D (D.rows start.conn) ms s
      k = Run-Kept D fresh run

  -- The deadlines leave the writer enough time for what is queued, and for the two messages.
  pub record IsEnough (p : Deadlines) (s : Store D) : Type 0 where
    pub flush_room : 3 * length s.queue + 2 ≤ p.flush_room
    pub flush_ack : 5 ≤ p.flush_ack
    pub join : 3 ≤ p.join

  send_deadline_sent :
      (m : WriterMsg) (room wait : ℕ) (s : Store D) {t : Store D}
      → try_send D m (writer_loop D room s) ≡ some t
      → send_deadline m room wait s ≡ writer_loop D wait t
  unfolding send_deadline try_send
  send_deadline_sent m room wait s e = ground arith

  module _ {start s : Store D} {ms : List WriterMsg} (ack : ℕ) (p : Deadlines)
      (fresh : IsFresh D start) (run : Run D start ms s) (no_stop : All IsNoStop ms)
      (enough : IsEnough p s) where
    caught_up : Store D
    caught_up = writer_loop D p.flush_room s

    caught_up-IsRested : IsRested caught_up
    unfolding caught_up
    caught_up-IsRested = rested p.flush_room s (Run-IsOpen D fresh run no_stop) enough.flush_room

    flushing : Store D
    flushing = record caught_up { queue = flush ack ∷ [] }

    flushed : Store D
    flushed = writer_loop D p.flush_ack flushing

    flush_sent : try_send D (flush ack) caught_up ≡ some flushing
    unfolding flushing
    flush_sent = rested-try_send (flush ack) caught_up caught_up-IsRested

    flushed-IsRested : IsRested flushed
    unfolding flushed flushing caught_up
    flushed-IsRested =
        rested p.flush_ack flushing
          (sent-IsOpen D (flush ack) caught_up flush_sent (λ h. cc)
            (writer_loop-IsOpen D p.flush_room s (Run-IsOpen D fresh run no_stop)))
          enough.flush_ack

    flushed-Run : Run D start (ms ++ flush ack ∷ []) flushed
    unfolding flushed caught_up
    flushed-Run =
        Run-writer_loop p.flush_ack
          (asked (flush ack) (Run-writer_loop p.flush_room run) flush_sent)

    flushed_sent : send_deadline (flush ack) p.flush_room p.flush_ack s ≡ flushed
    unfolding flushed caught_up
    flushed_sent = send_deadline_sent (flush ack) p.flush_room p.flush_ack s flush_sent

    flushed_stays : writer_loop D p.stop_room flushed ≡ flushed
    flushed_stays =
        writer_loop_idle D p.stop_room flushed
          (blocked flushed-IsRested.phase flushed-IsRested.queue)

    stop_sent : send_deadline stop p.stop_room p.join flushed ≡ stopped_now flushed
    stop_sent =
        send_deadline_sent stop p.stop_room p.join flushed
          (ap (try_send D stop) flushed_stays ∙ rested-try_send stop flushed flushed-IsRested)
        ∙ stops p.join flushed flushed-IsRested enough.join

    ended : flush_and_join ack p s ≡ (stopped_now flushed, true)
    unfolding flush_and_join stopped_now is_stopped
    ended =
        ap (λ t. (t, is_stopped D t))
          (ap (send_deadline stop p.stop_room p.join) flushed_sent ∙ stop_sent)

    records_flush : records (ms ++ flush ack ∷ []) ≡ records ms
    records_flush = records-append ms (flush ack ∷ []) ∙ append-nil (records ms)

    flushed_stored :
        (flush_and_join ack p s).0.failures ≡ 0
        → D.rows flushed.conn ≡ D.rows start.conn ++ map params (records ms)
    unfolding stopped_now
    flushed_stored f =
        stored_all start flushed (ms ++ flush ack ∷ []) fresh flushed-Run flushed-IsRested
          (sym (ap (λ x. x.0.failures) ended) ∙ f)
        ∙ ap (λ x. D.rows start.conn ++ map params x) records_flush

  -- Provided that the writer gets the time that its queue needs, that nobody has told it to stop, and
  -- that no insert fails: at the end of the shutdown it is joined, not detached, and every row that was
  -- ever accepted stands in the table, in order, behind those that were there at the start.
  pub flush_and_join-stores :
      {start s : Store D} {ms : List WriterMsg} (ack : ℕ) (p : Deadlines)
      → IsFresh D start
      → Run D start ms s
      → All IsNoStop ms
      → IsEnough p s
      → (flush_and_join ack p s).0.failures ≡ 0
      → ((flush_and_join ack p s).1 ≡ true)
        × (D.rows (flush_and_join ack p s).0.conn ≡ D.rows start.conn ++ map params (records ms))
  unfolding stopped_now
  flush_and_join-stores ack p fresh run no_stop enough f =
      let e = ended ack p fresh run no_stop enough in
      (
        ap (λ x. x.1) e,
        ap (λ x. D.rows x.0.conn) e ∙ flushed_stored ack p fresh run no_stop enough f,
      )
