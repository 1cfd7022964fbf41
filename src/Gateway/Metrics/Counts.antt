-- ===== src/Gateway/Metrics/Counts.antt =====
-- crates/moaray/src/observe.rs: how many requests a list of metric updates counts.
use mathlib.Core.List.{append-nil}
use moaray.Base.{
  ℕ, String, ◌≡◌, refl, ap, if◌then◌else◌, leb, Bool-cases, inl, inr, List, [], ◌∷◌, ◌++◌,
}
use moaray.Gateway.Metrics.{
  RequestPath, pre_routing, path_label, status_class, Update, requests_total, errors_total,
  request_duration, moa_arm_total, moa_arm_duration, usage_unaccounted_stream_total,
  usage_unpriced_total, record_request, record_rejection, rejected_model, requests_of, errors_of,
}

requests_of-append :
    (us vs : List Update) → requests_of (us ++ vs) ≡ requests_of us ++ requests_of vs
requests_of-append [] vs = refl
requests_of-append (requests_total l ∷ us) vs = ap (λ r. l ∷ r) (requests_of-append us vs)
requests_of-append (errors_total l ∷ us) vs = requests_of-append us vs
requests_of-append (request_duration l ∷ us) vs = requests_of-append us vs
requests_of-append (moa_arm_total l ∷ us) vs = requests_of-append us vs
requests_of-append (moa_arm_duration l ∷ us) vs = requests_of-append us vs
requests_of-append (usage_unaccounted_stream_total ∷ us) vs = requests_of-append us vs
requests_of-append (usage_unpriced_total ∷ us) vs = requests_of-append us vs

errors_of-append : (us vs : List Update) → errors_of (us ++ vs) ≡ errors_of us ++ errors_of vs
errors_of-append [] vs = refl
errors_of-append (errors_total l ∷ us) vs = ap (λ r. l ∷ r) (errors_of-append us vs)
errors_of-append (requests_total l ∷ us) vs = errors_of-append us vs
errors_of-append (request_duration l ∷ us) vs = errors_of-append us vs
errors_of-append (moa_arm_total l ∷ us) vs = errors_of-append us vs
errors_of-append (moa_arm_duration l ∷ us) vs = errors_of-append us vs
errors_of-append (usage_unaccounted_stream_total ∷ us) vs = errors_of-append us vs
errors_of-append (usage_unpriced_total ∷ us) vs = errors_of-append us vs

-- Updates that count one request, with its path, model and status, and as an error if it is one.
pub record CountsOnce (path : RequestPath) (model : String) (status : ℕ) (us : List Update)
    : Type 0 where
  pub requests : requests_of us ≡ (path_label path, model, status_class status) ∷ []
  pub errors :
      errors_of us
      ≡ (if leb 400 status then (path_label path, model, status_class status) ∷ [] else [])

-- Updates that count no request.
pub record CountsNone (us : List Update) : Type 0 where
  pub no_requests : requests_of us ≡ []
  pub no_errors : errors_of us ≡ []

pub record_request-CountsOnce :
    (path : RequestPath) (model : String) (status : ℕ)
    → CountsOnce path model status (record_request path model status)
unfolding record_request
record_request-CountsOnce path model status = elim (Bool-cases (leb 400 status)) [
  | inl e ↦ record { requests = rw e refl; errors = rw e refl }
  | inr e ↦ record { requests = rw e refl; errors = rw e refl }
]

pub record_rejection-CountsOnce :
    (status : ℕ) → CountsOnce pre_routing rejected_model status (record_rejection status)
unfolding record_rejection
record_rejection-CountsOnce status = elim (Bool-cases (leb 400 status)) [
  | inl e ↦ record { requests = rw e refl; errors = rw e refl }
  | inr e ↦ record { requests = rw e refl; errors = rw e refl }
]

pub CountsOnce-append :
    {path : RequestPath} {model : String} {status : ℕ} (us vs : List Update)
    → CountsOnce path model status us
    → CountsNone vs
    → CountsOnce path model status (us ++ vs)
CountsOnce-append us vs once silent = record {
  requests = simp (requests_of-append, once.requests, silent.no_requests);
  errors = simp (errors_of-append, once.errors, silent.no_errors, append-nil);
}

pub CountsNone-append :
    (us vs : List Update) → CountsNone us → CountsNone vs → CountsNone (us ++ vs)
CountsNone-append us vs u v = record {
  no_requests = simp (requests_of-append, u.no_requests, v.no_requests);
  no_errors = simp (errors_of-append, u.no_errors, v.no_errors);
}

pub CountsOnce-after :
    {path : RequestPath} {model : String} {status : ℕ} (us vs : List Update)
    → CountsNone us
    → CountsOnce path model status vs
    → CountsOnce path model status (us ++ vs)
CountsOnce-after us vs silent once = record {
  requests = simp (requests_of-append, once.requests, silent.no_requests);
  errors = simp (errors_of-append, once.errors, silent.no_errors);
}
