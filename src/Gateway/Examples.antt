-- ===== src/Gateway/Examples.antt =====
-- crates/moaray/src/app.rs on a small configuration.
use moaray.Base.{◌≡◌, ◌≤◌, ◌<◌, ◌⊎◌, true, false, some, [], ◌∷◌}
use moaray.Base.Int.{pos}
use moaray.Base.Result.{ok, err}
use moaray.Config.Examples.{config}
use moaray.Core.Error.{Error, upstream_error, upstream_timeout}
use moaray.Providers.Wire.{RawResponse}
use moaray.Gateway.Booked.{Priced}
use moaray.Gateway.Replies.{into_response}
use moaray.Gateway.Handlers.{
  RawProvider, Execution, row_of, upstream_call, passthrough, passthrough-Booked,
}

-- An upstream that answers in time, and streams nothing.
abbrev answering : RawProvider
answering = record {
  upstream_id = "up";
  passthrough = λ ctx raw. record {
    takes = 20;
    result = ok (record {
      status = 200;
      content_type = some "application/json";
      body = ok (123 ∷ 125 ∷ []) ∷ [];
      usage = some (pos 3, pos 4);
    });
  };
  passthrough_stream = λ ctx raw. record { takes = 20; result = err upstream_error };
}

abbrev asked : Execution
asked = record {
  request_id = "r1";
  caller_key_id = "team";
  model = "gpt-5.5";
  raw = 123 ∷ 125 ∷ [];
  stream = false;
  now = 0;
  unix_ms = pos 5;
}

passthrough-Booked_example :
    ((resp : RawResponse) × (((upstream_call config answering asked).result ≡ ok resp)
        × (((upstream_call config answering asked).takes ≤ config.server.request_timeout_ms)
            × (((passthrough config config answering asked).1 ≡ ok (into_response resp false))
                × (((false ≡ true) × ((passthrough config config answering asked).0 ≡ []))
                    ⊎ ((false ≡ false)
                        × (((passthrough config config answering asked).0
                              ≡ row_of config answering asked resp ∷ [])
                            × Priced (row_of config answering asked resp))))))))
    ⊎ ((e : Error) × ((passthrough config config answering asked ≡ ([], err e))
          × ((((upstream_call config answering asked).takes ≤ config.server.request_timeout_ms)
                × ((upstream_call config answering asked).result ≡ err e))
              ⊎ ((config.server.request_timeout_ms < (upstream_call config answering asked).takes)
                  × (e ≡ upstream_timeout)))))
passthrough-Booked_example = passthrough-Booked config config answering asked
