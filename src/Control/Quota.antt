-- ===== src/Control/Quota.antt =====
-- FetchQuota of internal/qodercontrol/quota.go. float64 is a parameter; an instant is none or seconds.
-- The time of the snapshot is left out.
pub mod Handler
use qoder_cpa.Prelude.{
  ℕ, ◌/◌, Bool, true, false, not, ◌&&◌, ◌||◌, List, [], ◌∷◌, ◌++◌, Option, none, some, Text,
  text_eq, ◌==◌, nat_beq, ltb, codes, if◌then◌else◌, trim_space, ℤ, pos, negsuc, ltb_ℤ,
}
use qoder_cpa.Auth.{Credential, cosy_cn}
use qoder_cpa.Transport.{itoa}
use qoder_cpa.Scheduler.State.{Float64}
use qoder_cpa.Control.{
  Config, ControlError, upstream_error, response_too_large, malformed_response, upstream_failed,
  quota_unknown, Fetched, got, lost, Request, Reply, do_request, Profile, ProfileResponse,
  fetch_profile,
}

pub record Bucket (F : Type 0) : Type 0 where
  pub total : F
  pub used : F
  pub remaining : F
  pub unit : Text

pub record Usage (F : Type 0) : Type 0 where
  pub user_type : Text
  pub is_quota_exceeded : Bool
  pub expires_at : ℤ
  pub upgrade_url : Text
  pub agent_limit : F
  pub agent_limit_snake : F
  pub user_quota : Bucket F
  pub add_on_quota : Bucket F

pub record Plan : Type 0 where
  pub user_type : Text
  pub plan_tier_name : Text
  pub is_paid_plan : Bool
  pub start_date : ℤ
  pub end_date : ℤ

pub record Status (F : Type 0) : Type 0 where
  pub name : Text
  pub email : Text
  pub user_type : Text
  pub user_tag : Text
  pub plan : Text
  pub agent_limit : F
  pub agent_limit_snake : F
  pub is_quota_exceeded : Bool
  pub next_reset_at : ℤ

pub record FullQuota (F : Type 0) : Type 0 where
  pub nickname : Text
  pub email : Text
  pub mobile : Text
  pub plan_tier : Text
  pub user_type : Text
  pub paid_plan : Bool
  pub limit : F
  pub used : F
  pub remaining : F
  pub agent_limit : F
  pub add_on : F
  pub add_on_remaining : F
  pub exhausted : Bool
  pub unit : Text
  pub reset_at : Option ℤ
  pub period_start : Option ℤ
  pub period_end : Option ℤ
  pub upgrade_url : Text
  pub error : Text

-- quotaTime: milliseconds are told by their size.
unfoldable pub quota_time : ℤ → ℤ
quota_time (pos v) = if ltb 100000000000 v then pos (v / 1000) else pos v
quota_time (negsuc v) = negsuc v

abbrev time_or : Option ℤ → ℤ → Option ℤ
time_or old value = if ltb_ℤ (pos 0) value then some (quota_time value) else old

abbrev text_or : Text → Text → Text
text_or old new = if old == [] then new else old

abbrev pub no_usage : {F : Type 0} → F → FullQuota F
no_usage zero_f = record {
  nickname = [];
  email = [];
  mobile = [];
  plan_tier = [];
  user_type = [];
  paid_plan = false;
  limit = zero_f;
  used = zero_f;
  remaining = zero_f;
  agent_limit = zero_f;
  add_on = zero_f;
  add_on_remaining = zero_f;
  exhausted = false;
  unit = [];
  reset_at = none;
  period_start = none;
  period_end = none;
  upgrade_url = [];
  error = [];
}

-- One read: the call failed, its body is not decoded, or what it tells.
pub data Read (A : Type 0) : Type 0 where
  no_answer : ControlError → Read A
  no_json : Read A
  answered : A → Read A

abbrev decoded : {A : Type 0} → Option A → Read A
decoded none = no_json
decoded (some a) = answered a

abbrev pub read_of : {A : Type 0} → (Text → Option A) → Fetched Text → Read A
read_of decode (lost e) = no_answer e
read_of decode (got body) = decoded (decode body)

-- What summarizeQuotaError makes of an error; that of encoding/json is none that it knows.
unfoldable pub summarize_quota_error : Option ControlError → Text
summarize_quota_error (some (upstream_error status endpoint)) =
    codes "upstream HTTP " ++ itoa (pos status)
summarize_quota_error (some response_too_large) = codes "response too large"
summarize_quota_error (some malformed_response) = codes "malformed response"
summarize_quota_error (some upstream_failed) = codes "upstream request failed"
summarize_quota_error e = codes "quota status unavailable"

-- The summary of the first error of several reads, [] where there was none.
abbrev error_of : {A : Type 0} → Read A → Text
error_of (no_answer e) = summarize_quota_error (some e)
error_of no_json = summarize_quota_error none
error_of (answered a) = []

abbrev pub is_answered : {A : Type 0} → Read A → Bool
is_answered (answered a) = true
is_answered r = false

module _ (f : Float64) where
  abbrev float_or : f.F → f.F → f.F
  float_or a b = if f.eq a f.zero_f then b else a

  -- `usage.IsQuotaExceeded || (quota.Limit > 0 && quota.Remaining <= 0)`; JSON has no NaN.
  abbrev pub used_up : Usage f.F → Bool
  used_up u =
      u.is_quota_exceeded
      || (not (f.le u.user_quota.total f.zero_f) && f.le u.user_quota.remaining f.zero_f)

  unfoldable pub on_usage : Read (Usage f.F) → FullQuota f.F → FullQuota f.F
  on_usage (no_answer e) q = q
  on_usage no_json q = q
  on_usage (answered u) q = record q {
    user_type = trim_space u.user_type;
    limit = u.user_quota.total;
    used = u.user_quota.used;
    remaining = u.user_quota.remaining;
    unit = trim_space u.user_quota.unit;
    upgrade_url = trim_space u.upgrade_url;
    exhausted = used_up u;
    agent_limit = float_or u.agent_limit u.agent_limit_snake;
    period_end = time_or q.period_end u.expires_at;
    add_on = u.add_on_quota.total;
    add_on_remaining = u.add_on_quota.remaining;
  }

  unfoldable pub on_plan : Read Plan → FullQuota f.F → FullQuota f.F
  on_plan (no_answer e) q = q
  on_plan no_json q = q
  on_plan (answered p) q = record q {
    plan_tier = trim_space p.plan_tier_name;
    user_type = text_or q.user_type (trim_space p.user_type);
    paid_plan = p.is_paid_plan;
    period_start = time_or q.period_start p.start_date;
    period_end = time_or q.period_end p.end_date;
  }

  unfoldable pub on_status : Read (Status f.F) → FullQuota f.F → FullQuota f.F
  on_status (no_answer e) q = q
  on_status no_json q = q
  on_status (answered s) q = record q {
    nickname = trim_space s.name;
    email = trim_space s.email;
    user_type = text_or q.user_type (trim_space s.user_type);
    plan_tier = text_or q.plan_tier (text_or (trim_space s.user_tag) (trim_space s.plan));
    agent_limit = float_or q.agent_limit (float_or s.agent_limit s.agent_limit_snake);
    exhausted = s.is_quota_exceeded || q.exhausted;
    reset_at = time_or q.reset_at s.next_reset_at;
  }

  abbrev pub with_unit : FullQuota f.F → FullQuota f.F
  with_unit q = record q {
    unit =
        if q.unit == [] && (not (f.eq q.limit f.zero_f) || not (f.eq q.remaining f.zero_f))
        then codes "credits"
        else q.unit;
  }

  abbrev pub with_mobile : Fetched Profile → FullQuota f.F → FullQuota f.F
  with_mobile (lost e) q = q
  with_mobile (got p) q = record q { mobile = trim_space p.mobile }

  -- The profile is asked for only where an account of the CN profile has no email.
  abbrev pub with_profile : Fetched Profile → Text → FullQuota f.F → FullQuota f.F
  with_profile asked profile q =
      if profile == cosy_cn && q.email == [] then with_mobile asked q else q

  abbrev pub with_error : Text → FullQuota f.F → FullQuota f.F
  with_error first q = if first == [] then q else record q { error = first }

  -- A quota, and whether one of the reads was answered; if none was, the error is ErrQuotaUnknown.
  unfoldable pub quota_of :
      Read (Usage f.F)
      → Read Plan
      → Read (Status f.F)
      → Fetched Profile
      → Text
      → FullQuota f.F × Bool
  unfolding on_usage on_plan on_status
  quota_of u p s asked profile =
      let read = on_status s (on_plan p (on_usage u (no_usage f.zero_f))) in
      (
        with_error (text_or (error_of u) (text_or (error_of p) (error_of s)))
            (with_profile asked profile (with_unit read)),
        is_answered u || is_answered p || is_answered s,
      )

-- What encoding/json reads of the bodies.
pub record QuotaJson (F : Type 0) : Type 0 where
  pub usage : Text → Option (Usage F)
  pub plan : Text → Option Plan
  pub status : Text → Option (Status F)
  pub profile : Text → Option ProfileResponse

unfoldable pub fetch_quota :
    (f : Float64) → QuotaJson f.F → (Request → Reply) → Config → Credential → FullQuota f.F × Bool
unfolding quota_of do_request fetch_profile
fetch_quota f json http cfg cred =
    quota_of f
      (read_of json.usage (do_request http cfg (codes "/api/v2/quota/usage") cred.access_token))
      (read_of json.plan (do_request http cfg (codes "/api/v2/user/plan") cred.access_token))
      (read_of json.status (do_request http cfg (codes "/api/v3/user/status") cred.access_token))
      (fetch_profile http cfg json.profile cred) cred.profile
