-- ===== src/Gateway/Handlers.antt =====
-- crates/moaray/src/app.rs: the handlers that execute a routed request. A handler gives the usage rows
-- that it records and the answer to the client; what the upstream does, and how long it takes, is given.
use moaray.Base.{
  ℕ, ◌+◌, ◌≤◌, ◌<◌, arith, ◌≡◌, refl, ◌⊎◌, inl, inr, String, Bool, true, false, if◌then◌else◌, leb,
  leb→le, unwrap_or, Option, none, some, List, [], ◌∷◌, Bool-cases,
}
use moaray.Base.Int.{ℤ}
use moaray.Base.Dict
use moaray.Base.Dict.{Dict}
use moaray.Base.Result.{Result, ok, err, Result-cases}
use moaray.Config.Runtime.{RuntimeConfig}
use moaray.Core.Error.{Error, upstream_timeout}
use moaray.Core.Json.{Json}
use moaray.Core.Types.{ReqCtx, ChatResponse}
use moaray.Core.Usage.{UsageRecord}
use moaray.Moa.Orchestrator.{MoaRun}
use moaray.Providers.Wire.{RawResponse}
use moaray.Gateway.Accounting.{book_passthrough, book_run}
use moaray.Gateway.Booked.{Priced, book_passthrough-Priced}
use moaray.Gateway.Replies.{Reply, into_response, moa_metadata}

-- What a raw call comes to when nobody cuts it off, and the milliseconds that it takes.
pub record RawCall : Type 0 where
  pub takes : ℕ
  pub result : Result RawResponse Error

-- The raw half of the provider trait.
pub record RawProvider : Type 0 where
  pub upstream_id : String
  pub passthrough : ReqCtx → List ℕ → RawCall
  pub passthrough_stream : ReqCtx → List ℕ → RawCall

-- A request on its way: its id, its caller, what it asks for, and the clocks when it is executed.
pub record Execution : Type 0 where
  pub request_id : String
  pub caller_key_id : String
  pub model : String
  pub raw : List ℕ
  pub stream : Bool
  pub now : ℕ
  pub unix_ms : ℤ

-- `tokio::time::timeout`.
unfoldable pub within : ℕ → RawCall → Result RawResponse Error
within timeout_ms call = if leb call.takes timeout_ms then call.result else err upstream_timeout

unfoldable pub request_ctx : RuntimeConfig → Execution → ReqCtx
request_ctx live x = record {
  request_id = x.request_id;
  deadline = x.now + live.server.request_timeout_ms;
  caller_key_id = x.caller_key_id;
  model = x.model;
}

unfoldable pub upstream_call : RuntimeConfig → RawProvider → Execution → RawCall
unfolding request_ctx
upstream_call live provider x =
    if x.stream
    then provider.passthrough_stream (request_ctx live x) x.raw
    else provider.passthrough (request_ctx live x) x.raw

abbrev pub row_of : RuntimeConfig → RawProvider → Execution → RawResponse → UsageRecord
row_of config provider x resp =
    book_passthrough config x.request_id x.caller_key_id x.unix_ms x.model provider.upstream_id
      resp.usage

abbrev finish_call :
    RuntimeConfig
    → RawProvider
    → Execution
    → Result RawResponse Error
    → List UsageRecord × Result Reply Error
finish_call config provider x (ok resp) =
    (if x.stream then [] else row_of config provider x resp ∷ [], ok (into_response resp x.stream))
finish_call config provider x (err e) = ([], err e)

-- The routed configuration prices the row, the live one bounds the time.
unfoldable pub passthrough :
    RuntimeConfig → RuntimeConfig → RawProvider → Execution → List UsageRecord × Result Reply Error
unfolding within upstream_call book_passthrough into_response
passthrough config live provider x =
    finish_call config provider x
      (within live.server.request_timeout_ms (upstream_call live provider x))

-- An answer that does not stream is relayed whole and books one row, with a cost exactly when its
-- status is ok; a streamed answer and a failure book none. A call that stays within the live request
-- timeout is answered as the upstream answers it, with its response or its error; one that takes longer is
-- answered with a timeout.
pub passthrough-Booked :
    (config live : RuntimeConfig) (provider : RawProvider) (x : Execution)
    → let call = upstream_call live provider x in
      let done = passthrough config live provider x in
      ((resp : RawResponse) × ((call.result ≡ ok resp)
          × ((call.takes ≤ live.server.request_timeout_ms)
              × ((done.1 ≡ ok (into_response resp x.stream))
                  × (((x.stream ≡ true) × (done.0 ≡ []))
                      ⊎ ((x.stream ≡ false)
                          × ((done.0 ≡ row_of config provider x resp ∷ [])
                              × Priced (row_of config provider x resp))))))))
      ⊎ ((e : Error) × ((done ≡ ([], err e))
            × (((call.takes ≤ live.server.request_timeout_ms) × (call.result ≡ err e))
                ⊎ ((live.server.request_timeout_ms < call.takes) × (e ≡ upstream_timeout)))))
unfolding passthrough within
passthrough-Booked config live provider x =
    elim (Bool-cases (leb call.takes live.server.request_timeout_ms)) [
      | inr late ↦ inr (upstream_timeout, (rw late refl, inr (ground (arith, late), refl)))
      | inl in_time ↦ elim (Result-cases call.result) [
        | inr (e, failed) ↦ inr (e, (rw (in_time, failed) refl, inl (leb→le _ _ in_time, failed)))
        | inl (resp, answered) ↦ inl (
          resp,
          (
            answered,
            (
              leb→le _ _ in_time,
              (
                rw (in_time, answered) refl,
                elim (Bool-cases x.stream) [
                  | inl streams ↦ inl (streams, rw (in_time, answered, streams) refl)
                  | inr whole ↦ inr (
                    whole,
                    (
                      rw (in_time, answered, whole) refl,
                      book_passthrough-Priced config x.request_id x.caller_key_id x.unix_ms x.model
                          provider.upstream_id resp.usage,
                    ),
                  )
                ],
              ),
            ),
          ),
        )
      ]
    ]
  where
    call : RawCall
    call = upstream_call live provider x

module _ (J : Json) (to_value : ChatResponse J → Option J.Value) where
  abbrev with_metadata : J.Value → J.Value → J.Value
  with_metadata body extra = elim (J.as_object body) [
    | none ↦ body
    | some m ↦ J.object (Dict.insert m "moaray" extra)
  ]

  -- The body of the answer to a run: the response, with the arms when the live configuration says so.
  unfoldable pub moa_reply : RuntimeConfig → MoaRun J → Result J.Value Error
  unfolding moa_metadata
  moa_reply live run = elim run.outcome as (λ r. Result J.Value Error) [
    | err e ↦ err e
    | ok response ↦
        let body = unwrap_or (to_value response) (J.object []) in
        ok (
          if live.server.moa_expose_metadata
          then with_metadata body (moa_metadata J run.proposers run.aggregator)
          else body)
  ]

  -- `run_moa`, given what the orchestrator makes of the request: a run books its arms whatever comes out
  -- of it.
  unfoldable pub run_moa :
      RuntimeConfig
      → RuntimeConfig
      → Execution
      → Result (MoaRun J) Error
      → List UsageRecord × Result J.Value Error
  unfolding book_run moa_reply
  run_moa config live x (err e) = ([], err e)
  run_moa config live x (ok run) =
      (book_run config x.request_id x.caller_key_id x.unix_ms run, moa_reply live run)
