-- ===== src/Auth.antt =====
-- internal/qoderauth: credentials (credentials.go) and their identifiers (authid.go). Login has the
-- device login, Refresh the refresh of a token, Scrub the texts of its errors, Provider the plugin's
-- side of them (auth_provider.go). An instant is a number of nanoseconds since 1970; crypto and
-- encoding/json are parameters.
pub mod Hex
pub mod Ids
pub mod Scrub
pub mod Login
pub mod Refresh
pub mod Provider
use qoder_cpa.Prelude.{
  ℕ, ◌+◌, Bool, true, false, ◌||◌, List, [], ◌∷◌, ◌++◌, Option, none, some, Text, text_eq, ◌==◌,
  codes, if◌then◌else◌, ltb, leb, length, take, not, ◌&&◌, ℤ,
}
use qoder_cpa.Auth.Hex.{hex_encode}

pub record Credential : Type 0 where
  pub access_token : Text
  pub refresh_token : Text
  pub expires_at : ℤ
  pub user_id : Text
  pub user_type : Text
  pub machine_id : Text
  pub email : Text
  pub organization_id : Text
  pub organization_tags : List Text
  pub runtime_info : Text
  pub runtime_key : Text
  pub profile : Text

-- The errors of the package: its sentinels, the errors that wrap them, and the texts of the others;
-- and that of a profile which auth_provider.go refuses.
pub data AuthError : Type 0 where
  transaction_expired : AuthError
  transaction_unknown : Text → AuthError
  transaction_terminal : Text → AuthError
  invalid_host : AuthError
  upstream_failed : Text → AuthError
  upstream_status : ℕ → AuthError
  malformed_response : AuthError
  response_too_large : AuthError
  refresh_error : Text → AuthError
  message : Text → AuthError
  invalid_profile : Text → AuthError

pub data Result {ℓ} (A : Type ℓ) : Type ℓ where
  ok : A → Result A
  err : AuthError → Result A

-- A chain that stops at its first error.
infixl 5 ◌>>=◌
abbrev pub ◌>>=◌ {ℓ κ} : {A : Type ℓ} {B : Type κ} → Result A → (A → Result B) → Result B
ok a >>= f = f a
err e >>= f = err e

-- What the HTTP client gives for a request: no request could be built, no response came, the body
-- broke off, or a response with its whole body.
pub data Reply : Type 0 where
  unbuilt : Text → Reply
  unreached : Text → Reply
  broken : ℕ → Reply
  response : ℕ → Text → Reply

abbrev pub max_response_body_bytes : ℕ
max_response_body_bytes = 1048576

-- The body as it is read through a limit of one byte more.
unfoldable pub limited : Text → Text
limited body = take (max_response_body_bytes + 1) body

abbrev pub is_2xx : ℕ → Bool
is_2xx status = not (ltb status 200 || leb 300 status)

unfoldable pub read_body : ℕ → Text → Result Text
read_body status body =
    if ltb max_response_body_bytes (length body)
    then err response_too_large
    else if is_2xx status
    then ok body
    else err (upstream_status status)

unfoldable pub do_http_request : Reply → Result Text
unfolding read_body limited
do_http_request (unbuilt e) = err (message e)
do_http_request (unreached e) = err (upstream_failed e)
do_http_request (broken status) = err malformed_response
do_http_request (response status body) = read_body status (limited body)

unfoldable pub validate : Credential → Result (Unit {0})
validate c =
    if c.access_token == []
    then err (message (codes "qoderauth: empty access token"))
    else if c.user_id == []
    then err (message (codes "qoderauth: empty user ID"))
    else ok tt

abbrev pub cosy_cn : Text
cosy_cn = codes "cosy-cn"

abbrev pub cosy_api2 : Text
cosy_api2 = codes "cosy-api2"

unfoldable pub is_valid_profile : Text → Bool
is_valid_profile p =
    p == cosy_api2 || p == codes "cosy-api3" || p == codes "bearer-openai" || p == cosy_cn

-- The document that is stored; the label is left to the host.
pub record StorageJson : Type 0 where
  pub access_token : Text
  pub refresh_token : Text
  pub expires_at : ℤ
  pub user_id : Text
  pub user_type : Text
  pub machine_id : Text
  pub email : Text
  pub label : Text
  pub organization_id : Text
  pub organization_tags : List Text
  pub runtime_info : Text
  pub runtime_key : Text
  pub profile : Text

unfoldable pub from_credential : Credential → StorageJson
from_credential c = record {
  access_token = c.access_token;
  refresh_token = c.refresh_token;
  expires_at = c.expires_at;
  user_id = c.user_id;
  user_type = c.user_type;
  machine_id = c.machine_id;
  email = c.email;
  label = [];
  organization_id = c.organization_id;
  organization_tags = c.organization_tags;
  runtime_info = c.runtime_info;
  runtime_key = c.runtime_key;
  profile = c.profile;
}

unfoldable pub to_credential : StorageJson → Credential
to_credential s = record {
  access_token = s.access_token;
  refresh_token = s.refresh_token;
  expires_at = s.expires_at;
  user_id = s.user_id;
  user_type = s.user_type;
  machine_id = s.machine_id;
  email = s.email;
  organization_id = s.organization_id;
  organization_tags = s.organization_tags;
  runtime_info = s.runtime_info;
  runtime_key = s.runtime_key;
  profile = s.profile;
}

-- `sha256` gives the bytes of the digest.
unfoldable pub new_auth_id : (Text → Text) → Text → Text
new_auth_id sha256 user = codes "qoder-" ++ hex_encode (sha256 user)

unfoldable pub auth_id_for_profile : (Text → Text) → Text → Text → Text
unfolding new_auth_id
auth_id_for_profile sha256 user profile =
    if profile == cosy_cn
    then new_auth_id sha256 (codes "cn" ++ 0 ∷ user)
    else new_auth_id sha256 user
