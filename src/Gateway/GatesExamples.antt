-- ===== src/Gateway/GatesExamples.antt =====
-- A request through the gates, on the small configuration of Config.Examples.
use moaray.Base.{ℕ, ◌≡◌, refl, true, none, some, [], ◌∷◌}
use moaray.Base.Dict
use moaray.Base.Result.{ok, err}
use moaray.Base.Text.{strip_prefix}
use moaray.Config.Runtime.{RuntimeConfig, plain}
use moaray.Config.Rules.{server_of}
use moaray.Config.Examples.{config}
use moaray.Core.Json.{Json}
use moaray.Core.Json.Reference.{Value, text, table, entry, end, reference, field_of}
use moaray.Core.Router.{route}
use moaray.Limit.{Governor}
use moaray.State.{empty, check_key_limit}
use moaray.Registry.{build_orchestrator_from_built}
use moaray.Reload.{Runtime}
use moaray.Auth.Bearer.{authenticate, parse_bearer, allows, secret_matches}
use moaray.Auth.Examples.{plain_text}
use moaray.Providers.Wire.{Wire}
use moaray.Gateway.Gates.{Inbound, Routed, moa, pre_route, is_known_model}
use moaray.Gateway.Admitted.{Admitted, pre_route-Admitted}

abbrev pub governor : Governor
governor = record {
  Limiter = ℕ × ℕ;
  direct = λ rps burst. (rps, burst);
  check = λ l now. (l, true);
}

abbrev pub wish : Value
wish = table (entry "model" (text "moa/best") end)

abbrev pub Sample : Json
Sample = reference (λ s. none)

abbrev pub reads_wish : Wire Sample
reads_wish = record {
  from_utf8 = λ bs. none;
  utf8 = λ s. [];
  trim = λ s. s;
  trim_start = λ s. s;
  from_slice = λ bs. ok wish;
  to_vec = λ v. [];
  request_value = λ r. none;
  response_of_value = λ v. none;
  send = λ p. err (record { is_timeout = true; is_connect = true });
}

abbrev pub keyed : RuntimeConfig
keyed = record config {
  keys =
      record {
        id = "team";
        secret = plain "s3cret";
        allow_models = "moa/best" ∷ [];
        rate_limit = none;
      }
      ∷ [];
}

abbrev pub served : Runtime governor
unfolding build_orchestrator_from_built
served = record {
  config = keyed;
  providers = [];
  orchestrator = build_orchestrator_from_built governor keyed [];
}

abbrev pub asked : Inbound
asked = record { authorization = some "Bearer s3cret"; body = some (123 ∷ 125 ∷ []) }

abbrev pub answer : Routed governor Sample reads_wish plain_text
answer = moa "team" "best" (123 ∷ 125 ∷ []) "moa/best" served

pub routed_test :
    (pre_route governor Sample reads_wish plain_text served keyed (empty governor) 0 asked).1
    ≡ ok answer
unfolding pre_route check_key_limit empty Dict.get parse_bearer authenticate secret_matches
    strip_prefix allows field_of route is_known_model served server_of
routed_test = refl

pre_route-Admitted_example :
    Admitted governor Sample reads_wish plain_text served keyed (empty governor) 0 asked answer
pre_route-Admitted_example =
    pre_route-Admitted governor Sample reads_wish plain_text served keyed (empty governor) 0 asked
      routed_test
