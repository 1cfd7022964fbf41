-- ===== src/Store/Kept.antt =====
-- crates/moaray-store/src/lib.rs: the invariant of an interleaving: the messages handled so far, and where
-- their rows are.
pub mod Advance
use moaray.Base.{
  ℕ, suc, ◌≡◌, ◌≢◌, refl, sym, ap, subst, ◌∙◌, ◌⊎◌, inl, inr, some, List, [], ◌∷◌, ◌++◌, map, All,
  All-map, map-append, Bool-cases, Option-cases, ltb, length,
}
use mathlib.Core.List.{append-nil, append_assoc}
use moaray.Base.Result.{Result-cases}
use moaray.Core.Usage.{UsageRecord}
use moaray.Store.Row.{Column, params}
use moaray.Store.Database.{Sqlite, flush_batch, flush_batch-rows}
use moaray.Store.Writer.{
  Phase, WriterMsg, row, flush, stop, writing, stopped, Store, try_send, take_first, take_next,
  take_ready, receive, drain_one, write, acknowledge, end_round, advance,
}
use moaray.Store.Equations.{
  List-cases, Phase-cases, try_send_queue, receive_cons, receive_nil, take_ready_cons,
  take_ready_nil, write_nil, write_ok, write_err, advance_waiting, advance_draining,
  advance_writing, advance_stopped, acknowledge-none, acknowledge-some, none-ne-some, suc-ne-zero,
}
use moaray.Store.Ledger.{records, records-append}
use moaray.Store.Run.{Splits, IsDurable}

module _ (D : Sqlite) where
  pub record Kept (base : List (List Column)) (ms : List WriterMsg) (s : Store D) : Type 0 where
    pub handled : List WriterMsg
    -- what was not handled: it stands in the channel until the receiver is dropped
    pub rest : List WriterMsg
    pub fifo : ms ≡ handled ++ rest
    pub queued : s.phase ≢ stopped → s.queue ≡ rest
    pub stored :
        s.failures ≡ 0 → D.rows s.conn ++ map params s.buf ≡ base ++ map params (records handled)
    pub pending : (a : ℕ) → s.pending_ack ≡ some a → Splits handled (flush a)
    pub acked : s.failures ≡ 0 → All (IsDurable D base ms s.conn) s.acked

  extended :
      {ms : List WriterMsg} {m : WriterMsg} (ns : List WriterMsg)
      → Splits ms m
      → Splits (ms ++ ns) m
  extended {ms} {m} ns p = record {
    before = p.before;
    after = p.after ++ ns;
    split = ap (λ x. x ++ ns) p.split ∙ append_assoc p.before (m ∷ p.after) ns;
  }

  module _ {base : List (List Column)} {ms : List WriterMsg} where
    stored_more :
        (m : WriterMsg) (s : Store D) (k : Kept base ms s)
        → s.failures ≡ 0
        → D.rows s.conn ++ map params (s.buf ++ records (m ∷ []))
          ≡ base ++ map params (records (k.handled ++ m ∷ []))
    stored_more m s k f =
        ap (λ x. D.rows s.conn ++ x) (map-append params s.buf one)
        ∙ sym (append_assoc (D.rows s.conn) (map params s.buf) (map params one))
        ∙ ap (λ x. x ++ map params one) (k.stored f)
        ∙ append_assoc base (map params (records k.handled)) (map params one)
        ∙ ap (λ x. base ++ x)
            (sym (map-append params (records k.handled) one)
              ∙ ap (map params) (sym (records-append k.handled (m ∷ []))))
      where
        one : List UsageRecord
        one = records (m ∷ [])

    absorbed-Kept :
        (m : WriterMsg) (later : List WriterMsg) (s t : Store D)
        → s.phase ≢ stopped
        → s.queue ≡ m ∷ later
        → t.queue ≡ later
        → t.conn ≡ s.conn
        → t.failures ≡ s.failures
        → t.acked ≡ s.acked
        → t.buf ≡ s.buf ++ records (m ∷ [])
        → ((a : ℕ) → t.pending_ack ≡ some a → (s.pending_ack ≡ some a) ⊎ (m ≡ flush a))
        → Kept base ms s
        → Kept base ms t
    absorbed-Kept m later s t o e queue conn failures acked buf pending k = record {
      handled = k.handled ++ m ∷ [];
      rest = later;
      fifo =
          k.fifo
          ∙ ap (λ x. k.handled ++ x) (sym (k.queued o) ∙ e)
          ∙ sym (append_assoc k.handled (m ∷ []) later);
      queued = λ h. queue;
      stored = λ f. rw (conn, buf) (stored_more m s k (sym failures ∙ f));
      pending = λ a h. elim (pending a h) [
        | inl before ↦ extended (m ∷ []) (k.pending a before)
        | inr now ↦ record {
          before = k.handled;
          after = [];
          split = ap (λ x. k.handled ++ x ∷ []) now;
        }
      ];
      acked = λ f. rw (conn, acked) (k.acked (sym failures ∙ f));
    }

    take_first-Kept :
        (m : WriterMsg) (later : List WriterMsg) (s : Store D)
        → s.phase ≢ stopped
        → s.queue ≡ m ∷ later
        → Kept base ms s
        → Kept base ms (take_first D m (record s { queue = later }))
    unfolding take_first
    take_first-Kept (row r) later s o e k =
        absorbed-Kept (row r) later s (take_first D (row r) (record s { queue = later })) o e refl
          refl refl refl refl (λ a h. inl h) k
    take_first-Kept (flush b) later s o e k =
        absorbed-Kept (flush b) later s (take_first D (flush b) (record s { queue = later })) o e
          refl refl refl refl (sym (append-nil s.buf)) (λ a h. inr (cc)) k
    take_first-Kept stop later s o e k =
        absorbed-Kept stop later s (take_first D stop (record s { queue = later })) o e refl refl
          refl refl (sym (append-nil s.buf)) (λ a h. inl h) k

    take_next-Kept :
        (m : WriterMsg) (later : List WriterMsg) (s : Store D)
        → s.phase ≢ stopped
        → s.queue ≡ m ∷ later
        → Kept base ms s
        → Kept base ms (take_next D m (record s { queue = later }))
    unfolding take_next
    take_next-Kept (row r) later s o e k =
        absorbed-Kept (row r) later s (take_next D (row r) (record s { queue = later })) o e refl
          refl refl refl refl (λ a h. inl h) k
    take_next-Kept (flush b) later s o e k =
        absorbed-Kept (flush b) later s (take_next D (flush b) (record s { queue = later })) o e
          refl refl refl refl (sym (append-nil s.buf)) (λ a h. inr (cc)) k
    take_next-Kept stop later s o e k =
        absorbed-Kept stop later s (take_next D stop (record s { queue = later })) o e refl refl
          refl refl (sym (append-nil s.buf)) (λ a h. inl h) k

    pub becomes : {s t : Store D} → t ≡ s → Kept base ms s → Kept base ms t
    becomes e k = subst (Kept base ms) (sym e) k

    receive-Kept : (s : Store D) → s.phase ≢ stopped → Kept base ms s → Kept base ms (receive D s)
    receive-Kept s o k = elim (List-cases s.queue) [
      | inl e ↦ becomes (receive_nil D s e) k
      | inr (m, (later, e)) ↦ becomes (receive_cons D m later s e) (take_first-Kept m later s o e k)
    ]

    rephased :
        (s : Store D) (p : Phase)
        → s.phase ≢ stopped
        → Kept base ms s
        → Kept base ms (record s { phase = p })
    rephased s p o k = record {
      handled = k.handled;
      rest = k.rest;
      fifo = k.fifo;
      queued = λ h. k.queued o;
      stored = k.stored;
      pending = k.pending;
      acked = k.acked;
    }

    take_ready-Kept :
        (s : Store D) → s.phase ≢ stopped → Kept base ms s → Kept base ms (take_ready D s)
    take_ready-Kept s o k = elim (List-cases s.queue) [
      | inl e ↦ becomes (take_ready_nil D s e) (rephased s writing o k)
      | inr (m, (later, e)) ↦
          becomes (take_ready_cons D m later s e) (take_next-Kept m later s o e k)
    ]

    drain_one-Kept :
        (s : Store D) → s.phase ≢ stopped → Kept base ms s → Kept base ms (drain_one D s)
    unfolding drain_one
    drain_one-Kept s o k = elim (Bool-cases (ltb (length s.buf) s.batch)) [
      | inl space ↦ rw space (take_ready-Kept s o k)
      | inr filled ↦ rw filled (rephased s writing o k)
    ]
