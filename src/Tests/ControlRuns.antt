-- ===== src/Tests/ControlRuns.antt =====
-- An account whose usage is not answered, and whose status does not tell that it is over.
use qoder_cpa.Prelude.{
  ℕ, ◌≤◌, ◌<◌, true, false, ◌&&◌, ◌||◌, [], ◌++◌, Option, none, some, Text, text_eq, ◌==◌, codes,
  if◌then◌else◌, length, trim_space, pos, plus, leb_ℤ, ◌≡◌, ◌≢◌, refl,
}
use qoder_cpa.VerifyHost.{has_suffix, is_loopback}
use qoder_cpa.Auth.{StorageJson, to_credential}
use qoder_cpa.Auth.Login.{trim_right_slash}
use qoder_cpa.Auth.Provider.{equal_fold}
use qoder_cpa.Scheduler.State.{State, quota_ttl, is_exhausted, new_scheduler_state}
use qoder_cpa.Scheduler.Notes.{note_quota_snapshot}
use qoder_cpa.Control.{
  got, BaseUrl, host_in_allowlist, base_error, new_client, Request, Reply, unreached, replied,
  do_request, request_of, on_reply,
}
use qoder_cpa.Control.Reached.{IsSafe, new_client-IsSafe, do_request_within}
use qoder_cpa.Control.Quota.{Status, QuotaJson}
use qoder_cpa.Control.Quota.Handler.{
  FetchRequest, default_config, control_config_for_profile, handle_quota_fetch,
}
use qoder_cpa.Control.Quota.Handler.Noted.{any_read, told_over, is_exhausted-handle_quota_fetch}
use qoder_cpa.Tests.PickRuns.{milli}

abbrev parse : Text → Option BaseUrl
parse raw = some (record {
  scheme = codes "https";
  hostname = codes "openapi.qoder.sh";
  raw_query = [];
  fragment = [];
})

made : new_client parse default_config ≡ got default_config
unfolding new_client base_error host_in_allowlist default_config has_suffix is_loopback
made = refl

new_client-IsSafe_example :
    (u : BaseUrl) × (parse default_config.base_url ≡ some u) × IsSafe default_config u
new_client-IsSafe_example = new_client-IsSafe parse default_config default_config made

abbrev http : Request → Reply
http r =
    if has_suffix r.endpoint (codes "/status") then replied 200 (codes "{}") else unreached none

status_body : do_request http default_config (codes "/status") (codes "t") ≡ got (codes "{}")
unfolding do_request on_reply request_of trim_right_slash default_config has_suffix
status_body = refl

do_request_within_example :
    (status : ℕ) × (http
        (request_of (trim_right_slash default_config.base_url ++ codes "/status") (codes "t") [])
      ≡ replied status (codes "{}"))
    × (length (codes "{}") ≤ default_config.body_limit)
    × (200 ≤ status)
    × (status < 300)
do_request_within_example =
    do_request_within http default_config (codes "/status") (codes "t") (codes "{}") status_body

abbrev status_json : Status ℕ
status_json = record {
  name = codes "n";
  email = codes "n@x";
  user_type = [];
  user_tag = [];
  plan = [];
  agent_limit = 0;
  agent_limit_snake = 0;
  is_quota_exceeded = false;
  next_reset_at = pos 0;
}

abbrev json : QuotaJson ℕ
json = record {
  usage = λ raw. none;
  plan = λ raw. none;
  status = λ raw. some status_json;
  profile = λ raw. none;
}

abbrev stored : StorageJson
stored = record {
  access_token = codes "t";
  refresh_token = codes "r";
  expires_at = pos 0;
  user_id = codes "u";
  user_type = [];
  machine_id = codes "m";
  email = [];
  label = [];
  organization_id = [];
  organization_tags = [];
  runtime_info = [];
  runtime_key = [];
  profile = codes "cosy-api2";
}

abbrev request : FetchRequest
request = record { provider = codes "qoder"; auth_id = codes "a"; storage_json = [] }

-- The account is known to be exhausted.
abbrev known : State ℕ
known = note_quota_snapshot (pos 0) (codes "a") 0 true (new_scheduler_state ℕ)

ours : ((request.provider == []) || equal_fold request.provider (codes "qoder")) ≡ true
unfolding equal_fold
ours = refl

client :
    new_client parse (control_config_for_profile (to_credential stored).profile)
    ≡ got default_config
unfolding control_config_for_profile to_credential
client = made

named : codes "a" ≢ []
named h = cc

trimmed : trim_space (codes "a") ≡ codes "a"
unfolding trim_space
trimmed = refl

is_exhausted-handle_quota_fetch_example :
    is_exhausted
      (pos 5)
      (codes "a")
      (handle_quota_fetch milli json http parse
        (λ raw. some request)
        (λ raw. some stored)
        (pos 1)
        []
        known).1
    ≡ (if any_read milli json http default_config (to_credential stored) && codes "a" == codes "a"
        then leb_ℤ (pos 5) (plus (pos 1) quota_ttl)
          && told_over milli json http default_config (to_credential stored)
        else is_exhausted (pos 5) (codes "a") known)
is_exhausted-handle_quota_fetch_example =
    is_exhausted-handle_quota_fetch milli json http parse (λ raw. some request) (λ raw. some stored)
      (pos 1) (pos 5) (codes "a") (codes "a") [] request stored default_config known refl ours refl
      refl client named trimmed trimmed

-- The snapshot of the account is overwritten: it counts as not exhausted.
forgotten :
    (if any_read milli json http default_config (to_credential stored) && codes "a" == codes "a"
      then leb_ℤ (pos 5) (plus (pos 1) quota_ttl)
        && told_over milli json http default_config (to_credential stored)
      else is_exhausted (pos 5) (codes "a") known)
    ≡ false
unfolding do_request on_reply request_of trim_right_slash default_config has_suffix to_credential
forgotten = refl
