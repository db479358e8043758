-- ===== src/Plugin/Failure.antt =====
-- internal/plugin/failure.go: who is at fault for a failed provider operation. A message is kept as
-- its marks: what `errors.Is` finds in it.
use vagabond.Base.Int64.{two63, sle, slt}
use vagabond.Base.{
  String, Option, ℕ, Bool, if◌then◌else◌, ◌<◌, true, false, ◌==◌, ◌≡◌, ◌||◌, none, ◌↔◌, some, ◌≤◌,
  ◌≢◌, ◌&&◌, ◌⊎◌, arith,
}

-- `Class`
pub data Class : Type 0 where
  infrastructure internal : Class
  other : String → Class

-- `Class.Valid`
unfoldable pub class_valid : Class → Bool
class_valid (Class.other _) = false
class_valid _ = true

-- `Class.Reroutable`
unfoldable pub class_reroutable : Class → Bool
class_reroutable Class.infrastructure = true
class_reroutable _ = false

-- The sentinels that an error may wrap.
pub data Mark : Type 0 where
  not_found unauthorized unsupported invalid_submission unknown_execution no_provider : Mark

abbrev pub mark_eq : Mark → Mark → Bool
mark_eq Mark.not_found Mark.not_found = true
mark_eq Mark.unauthorized Mark.unauthorized = true
mark_eq Mark.unsupported Mark.unsupported = true
mark_eq Mark.invalid_submission Mark.invalid_submission = true
mark_eq Mark.unknown_execution Mark.unknown_execution = true
mark_eq Mark.no_provider Mark.no_provider = true
mark_eq _ _ = false

-- `Error`: what its cause is marked as, in place of the cause.
pub record ProviderError : Type 0 where
  pub class : Class
  pub retryable : Bool
  pub retry_after : ℕ
  pub provider : String
  pub op : String
  pub mark : Option Mark

-- `Infrastructure` and `Internal`
unfoldable pub infrastructure_error : Option Mark → ProviderError
infrastructure_error mark = record {
  class = Class.infrastructure;
  retryable = true;
  retry_after = 0;
  provider = "";
  op = "";
  mark = mark;
}

unfoldable pub internal_error : Option Mark → ProviderError
internal_error mark = record {
  class = Class.internal;
  retryable = false;
  retry_after = 0;
  provider = "";
  op = "";
  mark = mark;
}

-- `WithContext`
unfoldable pub with_context : ProviderError → String → String → ProviderError
with_context e provider op = record e { provider = provider; op = op }

-- Any Go error: one that wraps a provider's, or one that does not.
pub data Failure : Type 0 where
  classified : ProviderError → Failure
  unclassified : Option Mark → Failure

-- The sentinel that a failure wraps, if it wraps one.
abbrev pub mark_of : Failure → Option Mark
mark_of (Failure.classified e) = e.mark
mark_of (Failure.unclassified mark) = mark

-- `errors.Is` of a failure and a sentinel.
abbrev pub is_marked : Mark → Failure → Bool
is_marked mark e = elim (mark_of e) [ none ↦ false | some m ↦ mark_eq mark m ]

-- `Reroutable`
unfoldable pub reroutable : Failure → Bool
reroutable (Failure.classified e) = class_reroutable e.class
reroutable (Failure.unclassified _) = false

-- `ClassifyHTTP`, for a status that int64 holds.
unfoldable pub classify_http : ℕ → ℕ → ProviderError
classify_http status retry_after =
    if status == 408 || status == 429
    then record (infrastructure_error none) { retry_after = retry_after }
    else if status == 404
    then internal_error (some Mark.not_found)
    else if status == 401 || status == 403
    then internal_error (some Mark.unauthorized)
    else if sle 400 status && slt status 500
    then internal_error none
    else if sle 500 status
    then record (infrastructure_error none) { retry_after = retry_after }
    else infrastructure_error none

-- A status is Vagabond's own fault exactly when it is a 4xx other than 408 and 429; every other
-- failure may be rerouted and retried, and a wait is passed on only from 408, 429 and the 5xx.
pub classify_http_lem :
    (status retry_after : ℕ)
    → status < two63
    → let e = classify_http status retry_after in
      ((reroutable (Failure.classified e) ≡ false)
        ↔ ((400 ≤ status) × (status < 500) × (status ≢ 408) × (status ≢ 429)))
      × (e.retryable ≡ reroutable (Failure.classified e))
      × ((e.retry_after ≢ 0) → (status ≡ 408) ⊎ ((status ≡ 429) ⊎ (500 ≤ status)))
unfolding classify_http reroutable class_reroutable infrastructure_error internal_error
classify_http_lem status retry_after r = ground arith
