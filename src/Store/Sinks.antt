-- ===== src/Store/Sinks.antt =====
-- crates/moaray-store/src/lib.rs, crates/moaray-core/src/usage.rs: the sinks that a request can record
-- its rows in.
use moaray.Base.{List, [], ◌∷◌, ◌++◌}
use moaray.Core.Usage.{UsageRecord}
use moaray.Store.Database.{Sqlite}
use moaray.Store.Writer.{Store, record_usage}

-- `trait UsageSink`, with the state that the shared sink keeps.
pub record UsageSink : Type 1 where
  pub State : Type 0
  pub record_row : UsageRecord → State → State

abbrev pub null_sink : UsageSink
null_sink = record { State = Unit {0}; record_row = λ r s. s }

abbrev pub vec_sink : UsageSink
vec_sink = record { State = List UsageRecord; record_row = λ r s. s ++ r ∷ [] }

abbrev pub sqlite_sink : Sqlite → UsageSink
sqlite_sink D = record { State = Store D; record_row = record_usage D }
