-- ===== src/Dial/Bearer.antt =====
-- Transport of internal/qodertransport/bearer/transport.go: its configuration and Stream, with the
-- request that it sends.
use qoder_cpa.Prelude.{
  Bool, not, ◌&&◌, ◌||◌, List, [], ◌∷◌, ◌++◌, Option, none, some, Text, text_eq, ◌==◌, codes,
  if◌then◌else◌, trim_space, ℤ, pos, int_eq,
}
use qoder_cpa.Auth.Login.{trim_right_slash}
use qoder_cpa.Dial.{
  Exchange, Effect, began, ended, Context, Dialed, refused, plain_error, bearer_dialect, Readers,
  on_exchange,
}
use qoder_cpa.Dial.Loopback.{is_loopback_url}

pub record Transport : Type 0 where
  pub token : Text
  pub endpoint : Text
  pub base_url : Text
  pub timeout : ℤ
  pub user_agent : Text

pub record Config : Type 0 where
  pub token : Text
  pub base_url : Text
  pub timeout : ℤ
  pub allow_test_endpoint : Bool
  pub user_agent : Text

pub data Made : Type 0 where
  made : Transport → Made
  failed : Text → Made

abbrev pub default_endpoint : Text
default_endpoint = codes "https://api2-v2.qoder.sh/model/v1/chat/completions"

abbrev default_ua : Text
default_ua = codes "Qoder-CPA/1.0"

unfoldable pub new_transport : Config → Made
new_transport cfg =
    if trim_space cfg.token == []
    then failed (codes "bearer: token must not be empty")
    else if not (cfg.base_url == [])
        && (not cfg.allow_test_endpoint || not (is_loopback_url cfg.base_url))
    then failed (codes "bearer: BaseURL requires AllowTestEndpoint=true and loopback address")
    else made (record {
      token = cfg.token;
      endpoint = default_endpoint;
      base_url = cfg.base_url;
      timeout = if cfg.timeout == pos 0 then pos 30000000000 else cfg.timeout;
      user_agent = if cfg.user_agent == [] then default_ua else cfg.user_agent;
    })

unfoldable pub request_url : Transport → Text
request_url t =
    if t.base_url == []
    then t.endpoint
    else trim_right_slash t.base_url ++ codes "/model/v1/chat/completions"

unfoldable pub request_headers : Transport → List (Text × Text)
request_headers t =
    (codes "Accept", codes "text/event-stream")
    ∷ (codes "Authorization", codes "Bearer " ++ t.token)
    ∷ (codes "Cache-Control", codes "no-cache")
    ∷ (codes "Connection", codes "keep-alive")
    ∷ (codes "Content-Type", codes "application/json")
    ∷ (codes "User-Agent", t.user_agent)
    ∷ []

pub record HttpRequest : Type 0 where
  pub url : Text
  pub headers : List (Text × Text)
  pub body : Text

-- `body` is what buildRequestBody gives; `send` is the HTTP client, which may refuse to build the
-- request.
unfoldable pub stream :
    Readers
    → Transport
    → Text
    → Bool
    → Option Text
    → Context
    → (HttpRequest → Option Exchange)
    → Dialed × List Effect
unfolding request_url request_headers
stream readers t model no_messages body ctx send =
    if model == []
    then (refused (plain_error (codes "bearer: model must not be empty")), [])
    else if no_messages
    then (refused (plain_error (codes "bearer: messages must not be empty")), [])
    else elim body [
      | none ↦ (refused (plain_error (codes "bearer: build request")), [])
      | some b ↦
          elim (send (record { url = request_url t; headers = request_headers t; body = b })) [
            | none ↦ (refused (plain_error (codes "bearer: create request")), began ∷ ended ∷ [])
            | some x ↦ let (d, es) = on_exchange bearer_dialect readers ctx x in (d, began ∷ es)
          ]
    ]
