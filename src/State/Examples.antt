-- ===== src/State/Examples.antt =====
-- crates/moaray/src/runtime.rs on a small configuration.
use moaray.Base.{ℕ, String, ◌≡◌, some, true}
use moaray.Config.Validate.WellFormed.{WellFormed, validate-WellFormed}
use moaray.Config.Examples.{host, doc, config, doc-validate}
use moaray.Limit.{Governor}
use moaray.State.{StatefulState, empty, ensure_for_config}
use moaray.State.Reconcile.{Reconciled}
use moaray.State.Serving.{
  AllServe, OldOrNew, IsServed, empty-AllServe, ensure_for_config-AllServe,
  ensure_for_config-IsServed,
}
use moaray.Base.Dict
use moaray.Config.Runtime.{ModelConfig}
use moaray.State.Keys.{KeysReconciled, reconcile_keys, reconcile_keys-KeysReconciled}

-- A limiter that is its quota and always lets through.
abbrev governor : Governor
governor = record {
  Limiter = ℕ × ℕ;
  direct = λ rps burst. (rps, burst);
  check = λ l now. (l, true);
}

abbrev state : StatefulState governor
state = ensure_for_config governor (empty governor) config

config-WellFormed : WellFormed config
config-WellFormed = validate-WellFormed host doc config doc-validate

state-AllServe : AllServe governor state
state-AllServe =
    ensure_for_config-AllServe governor (empty governor) config (empty-AllServe governor)

ensure_for_config-IsServed_example :
    Reconciled governor state (ensure_for_config governor state config) config
    × OldOrNew governor state (ensure_for_config governor state config)
    × AllServe governor (ensure_for_config governor state config)
    × ((j : String) (m : ModelConfig)
        → Dict.get config.models j ≡ some m
        → IsServed governor (ensure_for_config governor state config) config m)
ensure_for_config-IsServed_example =
    ensure_for_config-IsServed governor state config config-WellFormed state-AllServe

reconcile_keys-KeysReconciled_example :
    KeysReconciled governor state (reconcile_keys governor state config) config
reconcile_keys-KeysReconciled_example = reconcile_keys-KeysReconciled governor state config
