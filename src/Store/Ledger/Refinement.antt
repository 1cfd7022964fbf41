-- ===== src/Store/Ledger/Refinement.antt =====
-- crates/moaray-store/src/lib.rs: each step of the store is a change of the ledger.
use moaray.Base.{◌≡◌, ◌⊎◌, List, true, false, arith}
use moaray.Store.Database.{Sqlite}
use moaray.Store.Writer.{Store, is_stopped, write}
use moaray.Store.Ledger.{Ledger}

module _ (D : Sqlite) where
  write_stopped : (s : Store D) → is_stopped D (write D s) ≡ is_stopped D s
  unfolding write is_stopped
  write_stopped s = ground arith

  -- The writer returns in a step only if it has been told to stop.
  abbrev pub ReturnsToldOnly : Store D → Store D → Type 0
  ReturnsToldOnly s t = (is_stopped D t ≡ false) ⊎ ((is_stopped D s ≡ true) ⊎ (s.stop_seen ≡ true))
