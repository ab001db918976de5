-- ===== src/Control/Quota/Handler/Noted.antt =====
-- What a quota.fetch tells the scheduler.
use qoder_cpa.Prelude.{
  Bool, true, false, not, ◌&&◌, ◌||◌, [], ◌∷◌, Option, some, Text, text_eq, codes, text_beq_iff,
  ◌==◌, if◌then◌else◌, trim_space, ℤ, plus, leb_ℤ, ◌≡◌, ◌≢◌, refl, sym, ap, ◌∙◌, arith,
}
use qoder_cpa.Auth.{Credential, StorageJson, to_credential, cosy_cn}
use qoder_cpa.Auth.Provider.{equal_fold, provider_name}
use qoder_cpa.Scheduler.State.{Float64, State, quota_ttl, is_exhausted}
use qoder_cpa.Scheduler.Exclusion.{is_exhausted-note}
use qoder_cpa.Control.{
  Config, Fetched, got, lost, BaseUrl, new_client, Request, Reply, do_request, Profile,
  fetch_profile,
}
use qoder_cpa.Control.Quota.{
  Usage, Plan, Status, FullQuota, QuotaJson, Read, no_answer, no_json, answered, is_answered,
  read_of, used_up, on_usage, on_plan, on_status, quota_of, fetch_quota, no_usage, with_error,
  with_profile, with_mobile, with_unit,
}
use qoder_cpa.Control.Quota.Handler.{
  FetchRequest, control_config_for_profile, fetch_management_quota, handle_quota_fetch, on_quota,
  if_known,
}

abbrev pub usage_over : (f : Float64) → Read (Usage f.F) → Bool
usage_over f (answered u) = used_up f u
usage_over f r = false

abbrev pub status_over : {F : Type 0} → Read (Status F) → Bool
status_over (answered s) = s.is_quota_exceeded
status_over r = false

module _ (f : Float64) where
  after_usage :
      (u : Read (Usage f.F)) → (on_usage f u (no_usage f.zero_f)).exhausted ≡ usage_over f u
  unfolding on_usage
  after_usage (no_answer e) = refl
  after_usage no_json = refl
  after_usage (answered u) = refl

  after_plan : (p : Read Plan) (q : FullQuota f.F) → (on_plan f p q).exhausted ≡ q.exhausted
  unfolding on_plan
  after_plan (no_answer e) q = refl
  after_plan no_json q = refl
  after_plan (answered p) q = refl

  after_status :
      (s : Read (Status f.F)) (q : FullQuota f.F)
      → (on_status f s q).exhausted ≡ (status_over s || q.exhausted)
  unfolding on_status
  after_status (no_answer e) q = refl
  after_status no_json q = refl
  after_status (answered s) q = refl

  asked_left :
      (test : Bool) (asked : Fetched Profile) (q : FullQuota f.F)
      → (if test then with_mobile f asked (with_unit f q) else with_unit f q).exhausted
        ≡ q.exhausted
  asked_left false asked q = refl
  asked_left true (lost e) q = refl
  asked_left true (got p) q = refl

  over_left :
      (asked : Fetched Profile) (first profile : Text) (q : FullQuota f.F)
      → (with_error f first (with_profile f asked profile (with_unit f q))).exhausted ≡ q.exhausted
  over_left asked [] profile q = asked_left (profile == cosy_cn && q.email == []) asked q
  over_left asked (c ∷ first) profile q = asked_left (profile == cosy_cn && q.email == []) asked q

  quota_of_over :
      (u : Read (Usage f.F)) (p : Read Plan) (s : Read (Status f.F)) (asked : Fetched Profile)
      (profile : Text)
      → (quota_of f u p s asked profile).0.exhausted ≡ (status_over s || usage_over f u)
  unfolding quota_of
  quota_of_over u p s asked profile =
      let read = on_status f s (on_plan f p (on_usage f u (no_usage f.zero_f))) in
      over_left asked _ profile read
      ∙ after_status s (on_plan f p (on_usage f u (no_usage f.zero_f)))
      ∙ ap (λ o. status_over s || o)
          (after_plan p (on_usage f u (no_usage f.zero_f)) ∙ after_usage u)

  -- The three reads of an account.
  module _ (json : QuotaJson f.F) (http : Request → Reply) (cfg : Config) (cred : Credential) where
    abbrev pub usage_read : Read (Usage f.F)
    usage_read =
        read_of json.usage (do_request http cfg (codes "/api/v2/quota/usage") cred.access_token)

    abbrev pub plan_read : Read Plan
    plan_read =
        read_of json.plan (do_request http cfg (codes "/api/v2/user/plan") cred.access_token)

    abbrev pub status_read : Read (Status f.F)
    status_read =
        read_of json.status (do_request http cfg (codes "/api/v3/user/status") cred.access_token)

    abbrev pub any_read : Bool
    any_read = is_answered usage_read || is_answered plan_read || is_answered status_read

    abbrev pub told_over : Bool
    told_over = status_over status_read || usage_over f usage_read

  module _ (json : QuotaJson f.F) (http : Request → Reply) (parse : Text → Option BaseUrl)
      (request : Text → Option FetchRequest) (storage : Text → Option StorageJson) (now : ℤ) where
    -- The snapshot that an answer leaves.
    noted_over :
        (t : ℤ) (a b : Text) (known over : Bool) (q : FullQuota f.F) (r : FetchRequest)
        (s : State f.F)
        → a ≢ []
        → trim_space r.auth_id ≡ a
        → trim_space a ≡ a
        → q.exhausted ≡ over
        → is_exhausted t b
            (on_quota f json http parse request storage now (if_known (q, known)) r s).1
          ≡ (if known && a == b then leb_ℤ t (plus now quota_ttl) && over else is_exhausted t b s)
    noted_over t a b false over q r s named trims trimmed e = refl
    noted_over t a b true over q r s named trims trimmed e =
        let there : (a == []) ≡ false = ground (arith, text_beq_iff a []) in
        rw (trims, there)
          (is_exhausted-note now t a b q.remaining q.exhausted s (λ h. named (sym trimmed ∙ h))
            ∙ ap (λ o. if a == b then leb_ℤ t (plus now quota_ttl) && o else is_exhausted t b s) e)

    fetched :
        (cfg : Config) (cred : Credential)
        → new_client parse (control_config_for_profile cred.profile) ≡ got cfg
        → fetch_management_quota f json http parse cred
          ≡ if_known ((fetch_quota f json http cfg cred).0, any_read json http cfg cred)
    unfolding fetch_management_quota fetch_quota quota_of
    fetched cfg cred client = rw (fetch_management_quota, client) refl

    over :
        (cfg : Config) (cred : Credential)
        → (fetch_quota f json http cfg cred).0.exhausted ≡ told_over json http cfg cred
    unfolding fetch_quota
    over cfg cred =
        quota_of_over (usage_read json http cfg cred) (plan_read json http cfg cred)
          (status_read json http cfg cred) (fetch_profile http cfg json.profile cred) cred.profile

    -- A quota.fetch for an account of this provider with a token, whose id has no white space around it:
    -- if any of the three reads is answered and decoded, the account counts for five minutes as
    -- exhausted exactly where the status or the usage tells so, whatever was known of it, also where the
    -- usage was not answered; if none is, nothing that is known changes. No other account changes.
    pub is_exhausted-handle_quota_fetch :
        (t : ℤ) (a b raw : Text) (r : FetchRequest) (stored : StorageJson) (cfg : Config)
        (s : State f.F)
        → request raw ≡ some r
        → ((r.provider == []) || equal_fold r.provider provider_name) ≡ true
        → storage r.storage_json ≡ some stored
        → (stored.access_token == []) ≡ false
        → new_client parse (control_config_for_profile (to_credential stored).profile) ≡ got cfg
        → a ≢ []
        → trim_space r.auth_id ≡ a
        → trim_space a ≡ a
        → is_exhausted t b (handle_quota_fetch f json http parse request storage now raw s).1 ≡ (
            if any_read json http cfg (to_credential stored) && a == b
            then leb_ℤ t (plus now quota_ttl) && told_over json http cfg (to_credential stored)
            else is_exhausted t b s)
    unfolding handle_quota_fetch
    is_exhausted-handle_quota_fetch t a b raw r stored cfg s asked ours kept token client named
          trims trimmed =
        let cred = to_credential stored in
        let mine : (not (r.provider == []) && not (equal_fold r.provider provider_name)) ≡ false =
          ground arith in
        rw (handle_quota_fetch, asked, mine, kept, token, fetched cfg cred client)
          (noted_over t a b (any_read json http cfg cred) (told_over json http cfg cred)
            (fetch_quota f json http cfg cred).0 r s named trims trimmed (over cfg cred))
