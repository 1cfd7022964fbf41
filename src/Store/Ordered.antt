-- ===== src/Store/Ordered.antt =====
-- crates/moaray-store/src/lib.rs: what is durable when a flush is acknowledged, in every interleaving
-- of requests, the shutdown handle and the writer.
use moaray.Base.{String, String, ℕ, ◌≡◌, refl, sym, subst, ◌∙◌, List, [], All, arith}
use moaray.Base.Result.{ok, passed, ok-injective}
use moaray.Store.Database.{Sqlite, init_db}
use moaray.Store.Writer.{new, WriterMsg, row, Store}
use moaray.Store.Equations.{recorded_sent, recorded_dropped, none-ne-some}
use moaray.Store.Run.{Run, here, recorded, refused, asked, worked, IsFresh, IsDurable}
use moaray.Store.Kept.{Kept, becomes}
use moaray.Store.Kept.Advance.{advance-Kept, sent-Kept, dropped-Kept}

module _ (D : Sqlite) where
  fresh-Kept : (s : Store D) → IsFresh D s → Kept D (D.rows s.conn) [] s
  fresh-Kept s v = record {
    handled = [];
    rest = [];
    fifo = refl;
    queued = λ h. v.queue;
    stored = λ f. rw v.buf;
    pending = λ a h. absurd (none-ne-some (sym v.pending_ack ∙ h));
    acked = λ f. rw v.acked tt;
  }

  pub Run-Kept :
      {start s : Store D} {ms : List WriterMsg}
      → IsFresh D start
      → Run D start ms s
      → Kept D (D.rows start.conn) ms s
  Run-Kept {start} v here = fresh-Kept start v
  Run-Kept v (recorded {s = s} r run e) =
      becomes D (recorded_sent D r s e) (sent-Kept D (row r) s e (Run-Kept v run))
  Run-Kept v (refused {s = s} r run e) =
      becomes D (recorded_dropped D r s e) (dropped-Kept D s (Run-Kept v run))
  Run-Kept v (asked {s = s} m run e) = sent-Kept D m s e (Run-Kept v run)
  Run-Kept v (worked {s = s} run) = advance-Kept D s (Run-Kept v run)

  -- In every interleaving of requests, the shutdown handle and the writer, from a writer that has just
  -- started on any table, and as long as no insert fails: once a flush is acknowledged, every row
  -- accepted before it stands in the table, in the order of acceptance and directly behind the rows
  -- that were there at the start.
  pub acked-IsDurable :
      {start s : Store D} {ms : List WriterMsg}
      → IsFresh D start
      → Run D start ms s
      → s.failures ≡ 0
      → All (IsDurable D (D.rows start.conn) ms s.conn) s.acked
  acked-IsDurable v run f = (Run-Kept v run).acked f

  -- A sink that opens has a channel with room for at least one message, and a writer that waits on it
  -- with nothing read, buffered or asked for.
  pub new-IsFresh :
      (path : String) (capacity batch : ℕ) {s : Store D}
      → new D path capacity batch ≡ ok s
      → IsFresh D s
  unfolding new
  new-IsFresh path capacity batch h =
      let opened = passed _ (D.open_at path) h in
      let ready = passed _ (init_db D opened.value) opened.second in
      subst (IsFresh D) (ok-injective ready.second) (record {
        room = omega arith;
        phase = refl;
        stop_seen = refl;
        queue = refl;
        buf = refl;
        pending_ack = refl;
        acked = refl;
      })
