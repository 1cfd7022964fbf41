-- ===== src/Gateway/Metrics.antt =====
-- crates/moaray/src/observe.rs: what is recorded of a request. The recorder of the `metrics` crate is
-- the list of the updates that it gets; latencies are left out.
pub mod Counts
use moaray.Base.{
  ℕ, String, Bool, true, false, ◌&&◌, ◌≡◌, refl, List, [], ◌∷◌, ◌++◌, if◌then◌else◌, leb, arith,
}

-- The class of a status, as a label.
unfoldable pub status_class : ℕ → String
status_class status =
    if leb 100 status && leb status 199
    then "1xx"
    else if leb 200 status && leb status 299
    then "2xx"
    else if leb 300 status && leb status 399
    then "3xx"
    else if leb 400 status && leb status 499
    then "4xx"
    else "5xx"

pub data RequestPath : Type 0 where
  passthrough moa pre_routing : RequestPath

unfoldable pub path_label : RequestPath → String
path_label passthrough = "passthrough"
path_label moa = "moa"
path_label pre_routing = "pre_routing"

-- The labels of a counted request: its path, its model and its status class.
abbrev pub Labels : Type 0
Labels = String × String × String

-- An update of one metric.
pub data Update : Type 0 where
  requests_total errors_total : Labels → Update
  request_duration : String × String → Update
  moa_arm_total : Labels → Update
  moa_arm_duration : String × String → Update
  usage_unaccounted_stream_total usage_unpriced_total : Update

-- The errors among the requests.
abbrev counted_error : ℕ → Labels → List Update
counted_error status labels = if leb 400 status then errors_total labels ∷ [] else []

unfoldable pub record_request : RequestPath → String → ℕ → List Update
unfolding path_label
record_request path model status =
    let labels : Labels = (path_label path, model, status_class status) in
    requests_total labels
    ∷ (counted_error status labels ++ request_duration (path_label path, model) ∷ [])

-- The model that is recorded for a request that was rejected before it was routed.
abbrev pub rejected_model : String
rejected_model = "_pre_routing"

unfoldable pub record_rejection : ℕ → List Update
unfolding path_label
record_rejection status =
    let labels : Labels = (path_label pre_routing, rejected_model, status_class status) in
    requests_total labels ∷ counted_error status labels

unfoldable pub record_moa_arm : String → String → String → List Update
record_moa_arm model upstream_id class =
    moa_arm_total (model, upstream_id, class) ∷ moa_arm_duration (model, upstream_id) ∷ []

-- The requests that are counted, and those that are counted as errors.
abbrev pub requests_of : List Update → List Labels
requests_of [] = []
requests_of (requests_total l ∷ us) = l ∷ requests_of us
requests_of (_ ∷ us) = requests_of us

abbrev pub errors_of : List Update → List Labels
errors_of [] = []
errors_of (errors_total l ∷ us) = l ∷ errors_of us
errors_of (_ ∷ us) = errors_of us
