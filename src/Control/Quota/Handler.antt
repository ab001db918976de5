-- ===== src/Control/Quota/Handler.antt =====
-- handleQuotaFetch of quota_dispatch.go with fetchManagementQuota of management_quota.go: the quota of an
-- account is asked for, answered, and noted for the scheduler. The two texts for a failure are a data type.
pub mod Noted
use qoder_cpa.Prelude.{
  ℕ, Bool, true, false, not, ◌&&◌, ◌||◌, List, [], ◌∷◌, Option, none, some, Text, text_eq, ◌==◌,
  codes, if◌then◌else◌, trim_space, ℤ,
}
use qoder_cpa.Auth.{Credential, StorageJson, to_credential, cosy_cn}
use qoder_cpa.Auth.Provider.{equal_fold, provider_name}
use qoder_cpa.Scheduler.State.{Float64, State}
use qoder_cpa.Scheduler.Notes.{note_quota_snapshot}
use qoder_cpa.Control.{
  Config, ControlError, quota_unknown, Fetched, got, lost, and_then, BaseUrl, default_base_url,
  new_client, Request, Reply,
}
use qoder_cpa.Control.Quota.{FullQuota, QuotaJson, fetch_quota}

unfoldable pub default_config : Config
default_config = record {
  base_url = default_base_url;
  allow_insecure = false;
  allowed_hosts = codes "openapi.qoder.sh" ∷ [];
  body_limit = 1048576;
}

unfoldable pub default_config_cn : Config
default_config_cn = record {
  base_url = codes "https://openapi.qoder.com.cn";
  allow_insecure = false;
  allowed_hosts = codes "openapi.qoder.com.cn" ∷ [];
  body_limit = 1048576;
}

unfoldable pub control_config_for_profile : Text → Config
unfolding default_config default_config_cn
control_config_for_profile profile =
    if profile == cosy_cn then default_config_cn else default_config

pub record FetchRequest : Type 0 where
  pub provider : Text
  pub auth_id : Text
  pub storage_json : Text

pub data Label : Type 0 where
  status_unknown : Label
  refresh_failed : Label

unfoldable pub control_error_label : ControlError → Label
control_error_label quota_unknown = status_unknown
control_error_label e = refresh_failed

pub data Summary (F : Type 0) : Type 0 where
  bad_request : Summary F
  unsupported : Text → Summary F
  no_credential : Summary F
  failed : Label → Summary F
  metrics : F → F → F → F → Text → Summary F

abbrev pub if_known : {F : Type 0} → FullQuota F × Bool → Fetched (FullQuota F)
if_known (q, true) = got q
if_known (q, false) = lost quota_unknown

-- encoding/json of the request and of the stored credential, url.Parse, and the HTTP client.
module _ (f : Float64) (json : QuotaJson f.F) (http : Request → Reply)
    (parse : Text → Option BaseUrl) where
  unfoldable pub fetch_management_quota : Credential → Fetched (FullQuota f.F)
  unfolding new_client fetch_quota control_config_for_profile
  fetch_management_quota cred =
      and_then (new_client parse (control_config_for_profile cred.profile))
        λ cfg. if_known (fetch_quota f json http cfg cred)

  module _ (request : Text → Option FetchRequest) (storage : Text → Option StorageJson)
      (now : ℤ) where
    abbrev pub on_quota :
        Fetched (FullQuota f.F) → FetchRequest → State f.F → Summary f.F × State f.F
    on_quota (lost e) r s = (failed (control_error_label e), s)
    on_quota (got q) r s = (
      metrics q.remaining q.used q.limit q.agent_limit q.unit,
      if trim_space r.auth_id == []
          then s
          else note_quota_snapshot now (trim_space r.auth_id) q.remaining q.exhausted s,
    )

    abbrev pub on_stored : Option StorageJson → FetchRequest → State f.F → Summary f.F × State f.F
    on_stored none r s = (no_credential, s)
    on_stored (some stored) r s =
        if stored.access_token == []
        then (no_credential, s)
        else on_quota (fetch_management_quota (to_credential stored)) r s

    abbrev pub on_request : Option FetchRequest → State f.F → Summary f.F × State f.F
    on_request none s = (bad_request, s)
    on_request (some r) s =
        if not (r.provider == []) && not (equal_fold r.provider provider_name)
        then (unsupported r.provider, s)
        else on_stored (storage r.storage_json) r s

    unfoldable pub handle_quota_fetch : Text → State f.F → Summary f.F × State f.F
    unfolding fetch_management_quota control_error_label
    handle_quota_fetch raw s = on_request (request raw) s
