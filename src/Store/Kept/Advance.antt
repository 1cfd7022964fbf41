-- ===== src/Store/Kept/Advance.antt =====
-- crates/moaray-store/src/lib.rs: a round of the writer and a step of a sender keep the invariant.
use moaray.Base.{
  ℕ, suc, ◌≡◌, sym, ap, subst, ◌∙◌, inl, inr, some, refl, Bool-cases, List, [], ◌∷◌, ◌++◌, map,
  All-map, map-append, Option-cases,
}
use mathlib.Core.List.{append-nil, append_assoc}
use moaray.Base.Result.{Result-cases}
use moaray.Store.Row.{Column, params}
use moaray.Store.Database.{Sqlite, flush_batch, flush_batch-rows}
use moaray.Store.Writer.{
  WriterMsg, flush, Store, try_send, write, acknowledge, end_round, advance, waiting, writing,
}
use moaray.Store.Equations.{
  write_buf, written_phase, end_round_on, List-cases, Phase-cases, try_send_queue, write_nil,
  write_ok, write_err, advance_waiting, advance_draining, advance_writing, advance_stopped,
  acknowledge-none, acknowledge-some, none-ne-some, suc-ne-zero,
}
use moaray.Store.Ledger.{records, records-append}
use moaray.Store.Run.{Splits, IsDurable}
use moaray.Store.Kept.{Kept, extended, becomes, receive-Kept, rephased, drain_one-Kept}

module _ (D : Sqlite) where
  module _ {base : List (List Column)} {ms : List WriterMsg} where
    -- A commit leaves what was durable where it was.
    IsDurable-later :
        {c d : D.Connection} (rs : List (List Column))
        → D.rows d ≡ D.rows c ++ rs
        → (a : ℕ) → IsDurable D base ms c a
        → IsDurable D base ms d a
    IsDurable-later rs e a p = record {
      accepted = p.accepted;
      more = p.more ++ rs;
      stored =
          e
          ∙ ap (λ x. x ++ rs) p.stored
          ∙ append_assoc (base ++ map params (records p.accepted.before)) p.more rs;
    }

    write-Kept : (s : Store D) → Kept D base ms s → Kept D base ms (write D s)
    write-Kept s k = elim (List-cases s.buf) [
      | inl e ↦ becomes D (write_nil D s e) k
      | inr (r, (rs, e)) ↦ elim (Result-cases (flush_batch D s.conn s.buf)) [
        | inl (c, done) ↦ becomes D (write_ok D s e done) (record {
          handled = k.handled;
          rest = k.rest;
          fifo = k.fifo;
          queued = k.queued;
          stored = λ f. append-nil (D.rows c) ∙ flush_batch-rows D s.conn s.buf done ∙ k.stored f;
          pending = k.pending;
          acked = λ f.
              All-map (IsDurable-later (map params s.buf) (flush_batch-rows D s.conn s.buf done))
                s.acked (k.acked f);
        })
        | inr (f, lost) ↦ becomes D (write_err D s e lost) (record {
          handled = k.handled;
          rest = k.rest;
          fifo = k.fifo;
          queued = k.queued;
          stored = λ z. absurd (suc-ne-zero z);
          pending = k.pending;
          acked = λ z. absurd (suc-ne-zero z);
        })
      ]
    ]

    acked_now :
        (s : Store D) (k : Kept D base ms s) (a : ℕ)
        → s.buf ≡ []
        → s.failures ≡ 0
        → s.pending_ack ≡ some a
        → IsDurable D base ms s.conn a
    acked_now s k a empty f h = record {
      accepted = record { before = p.before; after = p.after ++ k.rest; split = whole };
      more = map params (records (flush a ∷ p.after));
      stored =
          sym (append-nil (D.rows s.conn))
          ∙ ap (λ x. D.rows s.conn ++ map params x) (sym empty)
          ∙ k.stored f
          ∙ ap (λ x. base ++ map params (records x)) p.split
          ∙ ap (λ x. base ++ map params x) (records-append p.before (flush a ∷ p.after))
          ∙ ap (λ x. base ++ x) (map-append params (records p.before) (records (flush a ∷ p.after)))
          ∙ sym (
              append_assoc base (map params (records p.before))
                (map params (records (flush a ∷ p.after))));
    }
      where
        p : Splits k.handled (flush a)
        p = k.pending a h

        whole : ms ≡ p.before ++ flush a ∷ (p.after ++ k.rest)
        whole =
            k.fifo
            ∙ ap (λ x. x ++ k.rest) p.split
            ∙ append_assoc p.before (flush a ∷ p.after) k.rest

    acknowledge-Kept :
        (s : Store D) → s.buf ≡ [] → Kept D base ms s → Kept D base ms (acknowledge D s)
    acknowledge-Kept s empty k = elim (Option-cases s.pending_ack) [
      | inl e ↦ becomes D (acknowledge-none D s e) k
      | inr (a, e) ↦ becomes D (acknowledge-some D s e) (record {
        handled = k.handled;
        rest = k.rest;
        fifo = k.fifo;
        queued = k.queued;
        stored = k.stored;
        pending = λ b h. absurd (none-ne-some h);
        acked = λ f. (acked_now s k a empty f e, k.acked f);
      })
    ]

    -- The round ends, and with a stop the loop: what is queued then is dropped with the receiver.
    end_round-Kept :
        (s : Store D) → s.phase ≡ writing → Kept D base ms s → Kept D base ms (end_round D s)
    unfolding end_round
    end_round-Kept s e k = elim (Bool-cases s.stop_seen) [
      | inl over ↦ rw over (record {
        handled = k.handled;
        rest = k.rest;
        fifo = k.fifo;
        queued = λ h. absurd (h refl);
        stored = k.stored;
        pending = k.pending;
        acked = k.acked;
      })
      | inr goes_on ↦ becomes D (end_round_on D s goes_on) (rephased D s waiting (λ h. cc (e, h)) k)
    ]

    pub advance-Kept : (s : Store D) → Kept D base ms s → Kept D base ms (advance D s)
    advance-Kept s k = elim (Phase-cases s.phase) [
      | inl (inl e) ↦ becomes D (advance_waiting D s e) (receive-Kept D s (λ h. cc (e, h)) k)
      | inl (inr e) ↦ becomes D (advance_draining D s e) (drain_one-Kept D s (λ h. cc (e, h)) k)
      | inr (inl e) ↦ becomes D (advance_writing D s e) (
          end_round-Kept (acknowledge D (write D s)) (written_phase D s ∙ e)
            (acknowledge-Kept (write D s) (write_buf D s) (write-Kept s k)))
      | inr (inr e) ↦ becomes D (advance_stopped D s e) k
    ]

    pub sent-Kept :
        (m : WriterMsg) (s : Store D) {t : Store D}
        → try_send D m s ≡ some t
        → Kept D base ms s
        → Kept D base (ms ++ m ∷ []) t
    unfolding extended
    sent-Kept m s e k = subst (Kept D base (ms ++ m ∷ [])) (sym (try_send_queue D m s e)) (record {
      handled = k.handled;
      rest = k.rest ++ m ∷ [];
      fifo = ap (λ x. x ++ m ∷ []) k.fifo ∙ append_assoc k.handled k.rest (m ∷ []);
      queued = λ h. ap (λ x. x ++ m ∷ []) (k.queued h);
      stored = k.stored;
      pending = k.pending;
      acked = λ f.
          All-map
            (λ a p. record {
              accepted = extended D (m ∷ []) p.accepted;
              more = p.more;
              stored = p.stored;
            })
            s.acked (k.acked f);
    })

    pub dropped-Kept :
        (s : Store D) → Kept D base ms s → Kept D base ms (record s { dropped = suc s.dropped })
    dropped-Kept s k = record {
      handled = k.handled;
      rest = k.rest;
      fifo = k.fifo;
      queued = k.queued;
      stored = k.stored;
      pending = k.pending;
      acked = k.acked;
    }
