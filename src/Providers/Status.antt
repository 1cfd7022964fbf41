-- ===== src/Providers/Status.antt =====
-- crates/moaray-providers/src/common.rs: upstream statuses, transport errors and token counts.
use moaray.Base.{
  ℕ, ◌≤◌, ◌<◌, ◌≡◌, ◌↔◌, ◌⊎◌, inl, inr, true, false, ◌&&◌, ltb, leb, ◌==◌, if◌then◌else◌, Option,
  none, some, List, [], ◌∷◌, map, is_some, unwrap_or, Bool-cases, arith,
}
use moaray.Base.Int.{ℤ, pos}
use moaray.Base.Result.{Result, ok, err, ◌>>=◌}
use moaray.Core.Error.{
  Error, upstream_timeout, upstream_error, upstream_client_error, upstream_rate_limited,
  upstream_unavailable, is_retryable, counts_against_breaker,
}
use moaray.Core.Json.{Json}
use moaray.Providers.Wire.{Failure, Response, Wire, RawResponse}

unfoldable pub map_upstream_status : ℕ → Result (Unit {0}) Error
map_upstream_status s =
    if leb 200 s && ltb s 300
    then ok tt
    else if s == 429
    then err upstream_rate_limited
    else if leb 500 s
    then err upstream_error
    else err upstream_client_error

unfoldable pub map_reqwest_error : Failure → Error
map_reqwest_error e =
    if e.is_timeout
    then upstream_timeout
    else if e.is_connect
    then upstream_unavailable
    else upstream_error

-- The error of a chunk that fails while it is relayed.
unfoldable pub relay_error : Failure → Error
relay_error e = if e.is_timeout then upstream_timeout else upstream_error

unfoldable pub relay_chunk : Result (List ℕ) Failure → Result (List ℕ) Error
unfolding relay_error
relay_chunk (ok bytes) = ok bytes
relay_chunk (err e) = err (relay_error e)

abbrev pub or_else : {A B E : Type 0} → Result A E → (E → B) → Result A B
or_else (ok a) f = ok a
or_else (err e) f = err (f e)

infixl 5 ◌>>=?◌
abbrev pub ◌>>=?◌ : {A B : Type 0} → Option A → (A → Option B) → Option B
none >>=? f = none
some a >>=? f = f a

-- Neither count there, or at least one of them, the other taken for zero.
unfoldable pub token_pair : Option ℤ → Option ℤ → Option (ℤ × ℤ)
token_pair none none = none
token_pair p c = some (unwrap_or p (pos 0), unwrap_or c (pos 0))

abbrev pub succeeded : {A E : Type 0} → Result A E → Option A
succeeded (ok a) = some a
succeeded (err e) = none

module _ (J : Json) (W : Wire J) where
  unfoldable pub usage_counts : J.Value → Option (ℤ × ℤ)
  unfolding token_pair
  usage_counts usage =
      let pair =
        token_pair (J.field usage "prompt_tokens" >>=? J.as_i64)
          (J.field usage "completion_tokens" >>=? J.as_i64) in
      if is_some (J.as_object usage) then pair else none

  unfoldable pub parse_usage_tokens : List ℕ → Option (ℤ × ℤ)
  unfolding usage_counts
  parse_usage_tokens bytes =
      succeeded (W.from_slice bytes) >>=? λ v. J.field v "usage" >>=? usage_counts

  unfoldable pub collect_response : Response → Result RawResponse Error
  unfolding map_reqwest_error parse_usage_tokens
  collect_response resp = or_else resp.bytes map_reqwest_error >>= λ bytes. ok (record {
    status = resp.status;
    content_type = resp.content_type;
    body = ok bytes ∷ [];
    usage = parse_usage_tokens bytes;
  })

unfoldable pub stream_response : Response → RawResponse
unfolding relay_chunk
stream_response resp = record {
  status = resp.status;
  content_type = some (unwrap_or resp.content_type "text/event-stream");
  body = map relay_chunk resp.bytes_stream;
  usage = none;
}

-- The answer of an upstream is relayed exactly when its status is a success, and the error that stands
-- for any other status counts against the breaker exactly for a server error (500 and above), and is
-- never one that is sent again.
pub map_upstream_status-classes :
    (s : ℕ)
    → ((map_upstream_status s ≡ ok tt) × ((200 ≤ s) × (s < 300)))
      ⊎ ((e : Error) × ((map_upstream_status s ≡ err e)
            × (((counts_against_breaker e ≡ true) ↔ (500 ≤ s)) × (is_retryable e ≡ false))))
unfolding map_upstream_status counts_against_breaker is_retryable
map_upstream_status-classes s = elim (Bool-cases (leb 200 s && ltb s 300)) [
  | inl good ↦ inl (ground arith)
  | inr bad ↦ inr (elim (Bool-cases (s == 429)) [
    | inl throttled ↦ (upstream_rate_limited, ground arith)
    | inr other ↦ elim (Bool-cases (leb 500 s)) [
      | inl broken ↦ (upstream_error, ground arith)
      | inr refused ↦ (upstream_client_error, ground arith)
    ]
  ])
]
