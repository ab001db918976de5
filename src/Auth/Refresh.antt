-- ===== src/Auth/Refresh.antt =====
-- Refresh and doRefresh of internal/qoderauth/refresh.go. A caller that finds a refresh of its account
-- under way is given that one's result; encoding/json and the HTTP client are parameters.
pub mod Laws
pub mod Flight
use qoder_cpa.Prelude.{
  ℕ, Bool, true, false, ◌||◌, List, [], ◌∷◌, Option, none, some, Text, text_eq, ◌==◌, codes,
  if◌then◌else◌, ℤ, pos, int_eq, plus, ◌*ℤ◌,
}
use qoder_cpa.Auth.{
  Credential, AuthError, refresh_error, message, malformed_response, Result, ok, err, ◌>>=◌, Reply,
  do_http_request, auth_id_for_profile,
}
use qoder_cpa.Auth.Scrub.{scrub_secrets}

pub record TokenRefreshResponse : Type 0 where
  pub token : Text
  pub access_token : Text
  pub refresh_token : Text
  pub token_type : Text
  pub expires_in : ℤ
  pub scope : Text

pub record PendingResponse : Type 0 where
  pub error : Text
  pub error_description : Text

-- What encoding/json reads from a body.
pub record Decoder : Type 0 where
  pub refreshed : Text → Option TokenRefreshResponse
  pub pending : Text → Option PendingResponse

-- The client is given the endpoint and the token that it posts.
pub record RefreshRequest : Type 0 where
  pub client : Option (Text → Text → Reply)
  pub token_url : Text
  pub client_id : Text
  pub cred : Credential
  pub ttl : ℤ

pub record RefreshResponse : Type 0 where
  pub credential : Credential
  pub next_refresh_after : ℤ

abbrev pub second : ℤ
second = pos 1000000000

abbrev pub first_of : Text → Text → Text
first_of a b = if a == [] then b else a

unfoldable pub rotated : ℤ → RefreshRequest → TokenRefreshResponse → RefreshResponse
rotated now req t = record {
  credential = record {
    access_token = first_of t.token t.access_token;
    refresh_token = first_of t.refresh_token req.cred.refresh_token;
    expires_at = plus now (t.expires_in *ℤ second);
    user_id = req.cred.user_id;
    user_type = [];
    machine_id = req.cred.machine_id;
    email = req.cred.email;
    organization_id = req.cred.organization_id;
    organization_tags = req.cred.organization_tags;
    runtime_info = req.cred.runtime_info;
    runtime_key = req.cred.runtime_key;
    profile = req.cred.profile;
  };
  next_refresh_after = plus now (if req.ttl == pos 0 then t.expires_in *ℤ second else req.ttl);
}

-- The answer holds no access token.
unfoldable pub refusal : Option PendingResponse → AuthError
refusal none = refresh_error (codes "no access token in refresh response")
refusal (some e) =
    if e.error == codes "invalid_grant" || e.error == codes "expired_token"
    then refresh_error e.error_description
    else refresh_error (codes "no access token in refresh response")

abbrev answered :
    Decoder → ℤ → RefreshRequest → Text → Option TokenRefreshResponse → Result RefreshResponse
answered json now req body none = err malformed_response
answered json now req body (some t) =
    if first_of t.token t.access_token == []
    then err (refusal (json.pending body))
    else ok (rotated now req t)

unfoldable pub do_refresh :
    Decoder → ℤ → (Text → Text → Reply) → RefreshRequest → Result RefreshResponse
unfolding refusal rotated
do_refresh json now send req =
    do_http_request (send req.token_url req.cred.refresh_token) >>= λ body.
    answered json now req body (json.refreshed body)

-- Where nothing is scrubbed the error is passed on as it is, which is the same value.
unfoldable pub sanitize_refresh_error : AuthError → Credential → AuthError
sanitize_refresh_error (refresh_error reason) cred = refresh_error (scrub_secrets reason cred)
sanitize_refresh_error e cred = e

unfoldable pub sanitized : Credential → Result RefreshResponse → Result RefreshResponse
unfolding sanitize_refresh_error
sanitized cred (ok r) = ok r
sanitized cred (err e) = err (sanitize_refresh_error e cred)

abbrev flight_key : (Text → Text) → Credential → Text
flight_key sha256 cred = auth_id_for_profile sha256 cred.user_id cred.profile

-- `fly` is the flight of the account: it is given the caller's own refresh, and gives its result or
-- that of the one that is under way.
unfoldable pub refresh :
    (Text → Text)
    → (Text → Result RefreshResponse → Result RefreshResponse)
    → Decoder
    → ℤ
    → RefreshRequest
    → Result RefreshResponse
unfolding sanitized do_refresh
refresh sha256 fly json now req = elim req.client [
  | none ↦ err (message (codes "qoderauth: nil HTTP client"))
  | some send ↦
      if req.token_url == []
      then err (message (codes "qoderauth: empty token URL"))
      else if req.cred.refresh_token == []
      then err (refresh_error (codes "no refresh token"))
      else if req.client_id == []
      then err (message (codes "qoderauth: empty client ID"))
      else sanitized req.cred (fly (flight_key sha256 req.cred) (do_refresh json now send req))
]

-- The flight of an account that no other caller refreshes.
abbrev pub alone : Text → Result RefreshResponse → Result RefreshResponse
alone key own = own
