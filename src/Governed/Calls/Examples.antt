-- ===== src/Governed/Calls/Examples.antt =====
-- crates/moaray/src/governed.rs: calls that share one upstream.
use moaray.Base.{ℕ, ◌≡◌, refl, false, none, some, List, [], ◌∷◌}
use moaray.Base.Result.{ok, err}
use moaray.Config.Runtime.{ModelConfig}
use moaray.Config.Examples.{model}
use moaray.Core.Error.{is_retryable, upstream_timeout}
use moaray.Breaker.{closed, new, check_at, on_success_at, on_failure_at, normal}
use moaray.Limit.{new_concurrency}
use moaray.State.{UpstreamState, build, check_limit}
use moaray.Governed.{
  granted, admit, limited, acquire, give_back, finish, drop_breaker_guard, record_error,
  max_retries,
}
use moaray.Governed.Examples.{governor, retry, flaky, cfg}
use moaray.Governed.Calls.{
  whole, streamed, Stage, waiting, calling, streaming, ended, waits, answers, drops, Action,
  arrives, happens, Call, proceed, deliver, arrived, step, run,
}
use moaray.Governed.Calls.Balanced.{start, IsBalanced, run-IsBalanced}
use moaray.Governed.Calls.Alone.{drive, answers_from}
use moaray.Governed.Calls.Settled.{Settles, drive-Settles}

abbrev one_at_a_time : ModelConfig
one_at_a_time = record model { rate_limit = none; max_concurrency = some 1 }

abbrev busy_upstream : UpstreamState governor
busy_upstream = record {
  limiter = none;
  concurrency = record { sem = some 0 };
  breaker = record {
    cfg = cfg;
    state = closed;
    consecutive_failures = 2;
    consecutive_successes = 0;
    opened_at = none;
    probe_in_flight = false;
  };
  governance = record { rate_limit = none; max_concurrency = some 1; breaker = cfg };
}

-- A stream takes the permit, so that another call waits until the stream ends.
abbrev shared : List (Action ℕ)
shared =
    arrives streamed 0
    ∷ arrives whole 1
    ∷ happens 0 2 (waits granted)
    ∷ happens 0 3 (answers (ok 7))
    ∷ happens 1 4 (waits granted)
    ∷ []

abbrev rest : List (Action ℕ)
rest =
    happens 0 5 drops
    ∷ happens 1 6 (waits granted)
    ∷ happens 1 7 (answers (err upstream_timeout))
    ∷ []

abbrev stages : List (Call ℕ) → List (Stage ℕ)
stages [] = []
stages (c ∷ cs) = c.stage ∷ stages cs

stream_holds :
    stages (run governor retry (start governor one_at_a_time cfg) shared).calls
    ≡ streaming 7 ∷ waiting normal ∷ []
unfolding run step arrived deliver proceed admit limited acquire check_at check_limit build
    new_concurrency new finish drop_breaker_guard on_success_at
stream_holds = refl

stream_over :
    stages
      (run governor retry (run governor retry (start governor one_at_a_time cfg) shared) rest).calls
    ≡ ended (some (ok 7)) ∷ ended (some (err upstream_timeout)) ∷ []
unfolding run step arrived deliver proceed admit limited acquire check_at check_limit build
    new_concurrency new finish drop_breaker_guard on_success_at on_failure_at give_back record_error
    max_retries is_retryable
stream_over = refl

run-IsBalanced_example :
    IsBalanced governor (some 1) (run governor retry (start governor one_at_a_time cfg) shared)
run-IsBalanced_example = run-IsBalanced governor one_at_a_time cfg retry shared

drive-Settles_example :
    (further : ℕ) × Settles governor retry flaky normal 9 busy_upstream further (
      drive governor retry 9
        (answers_from governor flaky 0 further)
        (busy_upstream, calling normal 0))
drive-Settles_example = drive-Settles governor retry flaky normal 9 busy_upstream
