-- ===== src/Auth/Provider/Service.antt =====
-- The methods of authService in auth_provider.go, after their requests were decoded: which region a
-- login, a poll and a refresh go to, and how a credential is completed.
pub mod Region
use qoder_cpa.Prelude.{
  ℕ, Bool, true, false, List, [], ◌∷◌, ◌++◌, Option, none, some, Text, text_eq, ◌==◌, codes,
  if◌then◌else◌, ℤ, pos, update,
}
use qoder_cpa.Auth.{
  Credential, AuthError, message, Result, ok, err, ◌>>=◌, Reply, cosy_cn, cosy_api2,
}
use qoder_cpa.Auth.Login.{
  Status, pending, success, error, Transaction, World, OauthConfig, Standard, Draws, store_get,
  trim_right_slash, device_login, default_config, default_config_cn,
}
use qoder_cpa.Auth.Login.Poll.{PollStatus, Poll, poll_login}
use qoder_cpa.Auth.Login.Poll as LoginPoll
use qoder_cpa.Auth.Refresh.{RefreshRequest, RefreshResponse, refresh}
use qoder_cpa.Auth.Refresh as TokenRefresh
use qoder_cpa.Auth.Provider.{
  Codec, AuthData, auth_data, parse_stored_credential, equal_fold, provider_name,
}

pub record Service : Type 0 where
  pub oauth : OauthConfig
  pub oauth_cn : OauthConfig

unfoldable pub default_auth_service : Service
unfolding default_config default_config_cn
default_auth_service = record { oauth = default_config; oauth_cn = default_config_cn }

-- The region of the login's metadata, empty where there is none that is a text.
unfoldable pub region_is_cn : Text → Bool
region_is_cn region = equal_fold region (codes "cn")

abbrev pub region_config : Service → Bool → OauthConfig
region_config s cn = if cn then s.oauth_cn else s.oauth

pub record StartResponse : Type 0 where
  pub provider : Text
  pub url : Text
  pub state : Text
  pub expires_at : ℤ
  pub region : Text

abbrev answered : Bool → Option Transaction → Result StartResponse
answered cn none = err (message (codes "nil transaction"))
answered cn (some t) = ok (record {
  provider = provider_name;
  url = t.verify_url;
  state = t.id;
  expires_at = t.expires_at;
  region = if cn then codes "cn" else [];
})

abbrev started : Bool → World × Result ℕ → World × Result StartResponse
started cn (w, err e) = (w, err e)
started cn (w, ok a) = (w, answered cn (w.heap a))

unfoldable pub start : Service → Standard → Draws → ℤ → Text → World → World × Result StartResponse
unfolding region_is_cn
start s std draws now region w =
    started (region_is_cn region)
      (device_login std draws now (region_config s (region_is_cn region)) [] (pos 0) w)

-- What the control plane tells of an account, and the fields that are derived from it.
pub record Profile : Type 0 where
  pub user_id : Text
  pub email : Text
  pub organization_id : Text
  pub organization_tags : List Text

pub record RuntimeFields : Type 0 where
  pub encrypt_user_info : Text
  pub key : Text

-- A failed fetch is passed over for an account that has a user id.
abbrev pub with_profile : Result Profile → Credential → Result Credential
with_profile (err e) c = if c.user_id == [] then err e else ok c
with_profile (ok p) c = ok (record c {
  user_id = p.user_id;
  email = p.email;
  organization_id = p.organization_id;
  organization_tags = p.organization_tags;
})

abbrev pub regional : Bool → Credential → Credential
regional cn c = record c { profile = if cn then cosy_cn else cosy_api2 }

abbrev pub with_runtime : Credential → RuntimeFields → Credential
with_runtime c r = record c { runtime_info = r.encrypt_user_info; runtime_key = r.key }

-- The clients of a poll: that of the control plane in a region, and cosy.DeriveRuntimeFields.
pub record Clients : Type 0 where
  pub control : Bool → Result (Credential → Result Profile)
  pub derive : Credential → Result RuntimeFields

unfoldable pub completed : Clients → Bool → Credential → Result Credential
completed clients cn cred = do
  fetch ← clients.control cn
  c ← with_profile (fetch cred) cred
  r ← clients.derive (regional cn c)
  ok (with_runtime (regional cn c) r)

abbrev pub after_runtime : Credential → Result RuntimeFields → Credential
after_runtime c (err e) = c
after_runtime c (ok r) = with_runtime c r

abbrev pub after_profile : Clients → Bool → Credential → Result Credential → Credential
after_profile clients cn cred (err e) = cred
after_profile clients cn cred (ok c) =
    after_runtime (regional cn c) (clients.derive (regional cn c))

abbrev pub after_control :
    Clients → Bool → Credential → Result (Credential → Result Profile) → Credential
after_control clients cn cred (err e) = cred
after_control clients cn cred (ok fetch) =
    after_profile clients cn cred (with_profile (fetch cred) cred)

-- What a poll has written to the credential when it returns, also where it fails on the way.
unfoldable pub written : Clients → Bool → Credential → Credential
written clients cn cred = after_control clients cn cred (clients.control cn)

abbrev wrote_at : Option Transaction → ℕ → Credential → World → World
wrote_at none a c w = w
wrote_at (some t) a c w = record w {
  heap = update w.heap a (some (record t { credential = some c }));
}

-- The credential of a poll is that of its transaction: what is written to it is written there.
unfoldable pub write_credential : ℕ → Credential → World → World
write_credential a c w = wrote_at (w.heap a) a c w

pub data PollAnswer : Type 0 where
  waits : Text → PollAnswer
  signed : AuthData → PollAnswer

abbrev pub refresh_url : OauthConfig → Text
refresh_url config = trim_right_slash config.api_base_url ++ codes "/api/v1/deviceToken/refresh"

unfoldable pub refresh_request : Service → (Text → Text → Reply) → Credential → RefreshRequest
refresh_request s send cred =
    let config = region_config s (cred.profile == cosy_cn) in
    record {
      client = some send;
      token_url = refresh_url config;
      client_id = config.client_id;
      cred = cred;
      ttl = pos 0;
    }

pub record RefreshAnswer : Type 0 where
  pub auth : AuthData
  pub next_refresh_after : ℤ

module _ (sha256 : Text → Text) (codec : Codec) where
  -- The credential of a login that succeeded is always there.
  abbrev finished : Clients → Bool → ℤ → Option Credential → Result PollAnswer
  finished clients cn now none = err (message (codes "nil credential"))
  finished clients cn now (some cred) =
      completed clients cn cred >>= λ c. auth_data sha256 codec now c [] >>= λ d. ok (signed d)

  abbrev on_status : Clients → Bool → ℤ → PollStatus → Status → Result PollAnswer
  on_status clients cn now s pending = ok (waits s.message)
  on_status clients cn now s success = finished clients cn now s.credential
  on_status clients cn now s error = finished clients cn now s.credential

  -- `at` is the transaction that PollLogin looked up.
  abbrev wrote : Clients → Bool → Option ℕ → Option Credential → World → World
  wrote clients cn none cred w = w
  wrote clients cn (some a) none w = w
  wrote clients cn (some a) (some cred) w = write_credential a (written clients cn cred) w

  abbrev on_status_wrote : Clients → Bool → Option ℕ → PollStatus → Status → World → World
  on_status_wrote clients cn at s pending w = w
  on_status_wrote clients cn at s success w = wrote clients cn at s.credential w
  on_status_wrote clients cn at s error w = wrote clients cn at s.credential w

  abbrev polled :
      Clients → Bool → ℤ → Option ℕ → World × Result PollStatus → World × Result PollAnswer
  polled clients cn now at (w, err e) = (w, err e)
  polled clients cn now at (w, ok s) =
      (on_status_wrote clients cn at s s.status w, on_status clients cn now s s.status)

  unfoldable pub poll :
      Service
      → Standard
      → LoginPoll.Decoder
      → Clients
      → Text
      → Poll
      → World
      → World × Result PollAnswer
  unfolding region_is_cn completed written write_credential
  poll s std json clients region p w =
      polled clients (region_is_cn region) p.later (store_get p.id w)
        (poll_login std json (record p { config = region_config s (region_is_cn region) }) w)

  unfoldable pub refresh_stored :
      Service
      → (Text → Result RefreshResponse → Result RefreshResponse)
      → TokenRefresh.Decoder
      → ℤ
      → (Text → Text → Reply)
      → Text
      → Result RefreshAnswer
  unfolding refresh_request
  refresh_stored s fly json now send raw = do
    cred ← parse_stored_credential codec raw
    r ← refresh sha256 fly json now (refresh_request s send cred)
    d ← auth_data sha256 codec now r.credential []
    ok (record { auth = d; next_refresh_after = r.next_refresh_after })
