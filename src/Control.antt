-- ===== src/Control.antt =====
-- internal/qodercontrol: the client of the control plane (control.go) and the profile of a user
-- (profile.go). url.Parse, the HTTP client and encoding/json are parameters; instants are left out.
pub mod Reached
pub mod Quota
use qoder_cpa.Prelude.{
  ℕ, ◌+◌, Bool, true, false, not, ◌&&◌, ◌||◌, List, [], ◌∷◌, ◌++◌, Option, none, some, Text,
  text_eq, ◌==◌, nat_beq, ltb, leb, codes, if◌then◌else◌, length, take,
}
use qoder_cpa.Auth.{Credential}
use qoder_cpa.Auth.Login.{trim_right_slash}
use qoder_cpa.VerifyHost.{has_suffix, is_loopback}

pub record Config : Type 0 where
  pub base_url : Text
  pub allow_insecure : Bool
  pub allowed_hosts : List Text
  pub body_limit : ℕ

-- The sentinels of errors.go, and the errors that carry more.
pub data ControlError : Type 0 where
  invalid_endpoint : ControlError
  host_not_allowed : ControlError
  response_too_large : ControlError
  quota_unknown : ControlError
  upstream_failed : ControlError
  malformed_response : ControlError
  non_json_response : ControlError
  context_ended : Text → ControlError
  upstream_error : ℕ → Text → ControlError
  uid_mismatch : Text → Text → ControlError

pub data Fetched (A : Type 0) : Type 0 where
  got : A → Fetched A
  lost : ControlError → Fetched A

abbrev pub and_then : {A B : Type 0} → Fetched A → (A → Fetched B) → Fetched B
and_then (got a) f = f a
and_then (lost e) f = lost e

-- What url.Parse finds in the base.
pub record BaseUrl : Type 0 where
  pub scheme : Text
  pub hostname : Text
  pub raw_query : Text
  pub fragment : Text

unfoldable pub host_in_allowlist : Text → List Text → Bool
host_in_allowlist host [] = false
host_in_allowlist host (h ∷ allowed) =
    host == h || has_suffix host (codes "." ++ h) || host_in_allowlist host allowed

unfoldable pub base_error : Config → BaseUrl → Option ControlError
unfolding host_in_allowlist
base_error cfg u =
    if u.hostname == []
    then some invalid_endpoint
    else if not (u.scheme == codes "https")
        && (not cfg.allow_insecure || not (is_loopback u.hostname))
    then some host_not_allowed
    else if not (u.raw_query == []) || not (u.fragment == [])
    then some invalid_endpoint
    else if not (is_loopback u.hostname) && not (host_in_allowlist u.hostname cfg.allowed_hosts)
    then some host_not_allowed
    else none

abbrev pub validate_base_url : Config → Option BaseUrl → Option ControlError
validate_base_url cfg none = some invalid_endpoint
validate_base_url cfg (some u) = base_error cfg u

abbrev pub default_base_url : Text
default_base_url = codes "https://openapi.qoder.sh"

abbrev pub with_defaults : Config → Config
with_defaults cfg = record cfg {
  body_limit = if nat_beq cfg.body_limit 0 then 1048576 else cfg.body_limit;
  base_url = if cfg.base_url == [] then default_base_url else cfg.base_url;
}

abbrev pub unless_error : Option ControlError → Config → Fetched Config
unless_error none cfg = got cfg
unless_error (some e) cfg = lost e

-- The configuration of the client, the limit of a body not being negative.
unfoldable pub new_client : (Text → Option BaseUrl) → Config → Fetched Config
unfolding base_error
new_client parse given =
    let cfg = with_defaults given in unless_error (validate_base_url cfg (parse cfg.base_url)) cfg

pub record Request : Type 0 where
  pub endpoint : Text
  pub headers : List (Text × Text)

-- The HTTP client: a request that cannot be made, an error (with that of the context, if it has ended),
-- a body that cannot be read, or a status and a body.
pub data Reply : Type 0 where
  unmade : Reply
  unreached : Option Text → Reply
  broken : Reply
  replied : ℕ → Text → Reply

unfoldable pub request_of : Text → Text → List (Text × Text) → Request
request_of endpoint token extra = record {
  endpoint = endpoint;
  headers =
      if token == []
      then (codes "Accept", codes "application/json") ∷ extra
      else (codes "Authorization", codes "Bearer " ++ token)
        ∷ (codes "Accept", codes "application/json")
        ∷ extra;
}

abbrev pub limited : ℕ → ℕ → Text → Text → Fetched Text
limited limit status endpoint body =
    if ltb limit (length body)
    then lost response_too_large
    else if ltb status 200 || leb 300 status
    then lost (upstream_error status endpoint)
    else got body

-- doRequestWithHeaders after the client has answered; a body is read up to one byte over the limit.
unfoldable pub on_reply : ℕ → Text → Reply → Fetched Text
on_reply limit endpoint unmade = lost invalid_endpoint
on_reply limit endpoint (unreached none) = lost upstream_failed
on_reply limit endpoint (unreached (some e)) = lost (context_ended e)
on_reply limit endpoint broken = lost malformed_response
on_reply limit endpoint (replied status body) =
    limited limit status endpoint (take (limit + 1) body)

unfoldable pub do_request : (Request → Reply) → Config → Text → Text → Fetched Text
unfolding on_reply request_of
do_request http cfg path token =
    let endpoint = trim_right_slash cfg.base_url ++ path in
    on_reply cfg.body_limit endpoint (http (request_of endpoint token []))

pub record Profile : Type 0 where
  pub user_id : Text
  pub email : Text
  pub name : Text
  pub mobile : Text
  pub organization_id : Text
  pub organization_tags : List Text

pub record ProfileResponse : Type 0 where
  pub id : Text
  pub user_id : Text
  pub uid : Text
  pub email : Text
  pub name : Text
  pub security_mobile : Text
  pub organization_id : Text
  pub organization_tags : List Text

abbrev user_of : ProfileResponse → Text
user_of p = if p.user_id == [] then if p.uid == [] then p.id else p.uid else p.user_id

abbrev profile_of : Option ProfileResponse → Fetched Profile
profile_of none = lost non_json_response
profile_of (some p) =
    if user_of p == []
    then lost malformed_response
    else got (record {
      user_id = user_of p;
      email = p.email;
      name = p.name;
      mobile = p.security_mobile;
      organization_id = p.organization_id;
      organization_tags = p.organization_tags;
    })

module _ (http : Request → Reply) (cfg : Config) (decode : Text → Option ProfileResponse) where
  unfoldable pub fetch_profile : Credential → Fetched Profile
  unfolding do_request
  fetch_profile cred =
      and_then (do_request http cfg (codes "/api/v1/userinfo") cred.access_token)
        λ body. profile_of (decode body)

  unfoldable pub fetch_profile_validated : Credential → Fetched Profile
  unfolding fetch_profile
  fetch_profile_validated cred = and_then (fetch_profile cred) λ p.
      if not (cred.user_id == []) && not (p.user_id == cred.user_id)
      then lost (uid_mismatch cred.user_id p.user_id)
      else got p
