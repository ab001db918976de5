-- ===== src/Cosy/Send.antt =====
-- The signed request of internal/qodertransport/cosy/request.go and the transport that sends it
-- (internal/qodertransport/cosy/transport.go, request_wire.go). The payload, the signature and the body
-- are made by parameters.
pub mod Hosts
use qoder_cpa.Prelude.{
  Bool, true, false, not, ◌&&◌, ◌||◌, List, [], ◌∷◌, ◌++◌, Option, none, some, Text, text_eq, ◌==◌,
  codes, if◌then◌else◌, insert, ℤ, pos, int_eq,
}
use qoder_cpa.Auth.Login.{trim_right_slash}
use qoder_cpa.Transport.{itoa}
use qoder_cpa.Dial.{
  Exchange, Effect, began, ended, Context, Dialed, refused, plain_error, cosy_dialect, Readers,
  on_exchange,
}
use qoder_cpa.Dial.Loopback.{is_loopback_url}
use qoder_cpa.Dial.Bearer.{HttpRequest}
use qoder_cpa.Cosy.Encoding.{encode_body}

abbrev pub endpoint_api2 : Text
endpoint_api2 = codes "cosy-api2"

abbrev pub endpoint_api3 : Text
endpoint_api3 = codes "cosy-api3"

abbrev pub endpoint_cn : Text
endpoint_cn = codes "cn"

abbrev chat_path : Text
chat_path =
    codes
      "/algo/api/v2/service/pro/sse/agent_chat_generation?FetchKeys=llm_model_result&AgentId=agent_common&Encode=1"

-- The host of an endpoint, with its scheme.
unfoldable pub endpoint_host : Text → Option Text
endpoint_host ep =
    if ep == endpoint_api2
    then some (codes "https://api2.qoder.sh")
    else if ep == endpoint_api3
    then some (codes "https://api3.qoder.sh")
    else if ep == endpoint_cn
    then some (codes "https://gateway.qoder.com.cn")
    else none

abbrev on_host : Option Text → Text → Option Text
on_host none path = none
on_host (some host) path = some (host ++ path)

unfoldable pub endpoint_url : Text → Option Text
unfolding endpoint_host
endpoint_url ep = on_host (endpoint_host ep) chat_path

unfoldable pub catalog_url : Text → Option Text
unfolding endpoint_host
catalog_url ep = on_host (endpoint_host ep) (codes "/algo/api/v2/model/list")

pub record RuntimeFields : Type 0 where
  pub encrypt_user_info : Text
  pub key : Text

unfoldable pub complete : RuntimeFields → Bool
complete f = not (f.encrypt_user_info == []) && not (f.key == [])

-- BuildCOSYPayload, SignRequest with SignPath, and ComposeBearer.
pub record Signer : Type 0 where
  pub payload : Text → Text → Text → Option Text
  pub sign : Text → Text → Text → Text → Text → Text
  pub compose : Text → Text → Text

pub record Parts : Type 0 where
  pub url : Text
  pub auth : Text
  pub date : Text
  pub cosy_key : Text
  pub cosy_version : Text
  pub body : Text

module _ (signer : Signer) where
  abbrev signed : Text → Text → Text → RuntimeFields → Text → ℤ → Parts
  signed url payload body fields version now = record {
    url = url;
    auth = signer.compose payload (signer.sign payload fields.key (itoa now) body url);
    date = itoa now;
    cosy_key = fields.key;
    cosy_version = version;
    body = body;
  }

  abbrev with_payload : Option Text → Text → Text → RuntimeFields → Text → ℤ → Option Parts
  with_payload none url body fields version now = none
  with_payload (some payload) url body fields version now =
      some (signed url payload body fields version now)

  abbrev with_url : Option Text → Text → RuntimeFields → Text → Text → ℤ → Option Parts
  with_url none body fields id version now = none
  with_url (some url) body fields id version now =
      with_payload (signer.payload id fields.encrypt_user_info version) url body fields version now

  -- `none` is an error; `now` counts seconds.
  unfoldable pub build_http_request_at :
      Text → Text → RuntimeFields → Text → Text → ℤ → Option Parts
  unfolding complete endpoint_url encode_body
  build_http_request_at ep body fields id version now =
      if complete fields
      then with_url (endpoint_url ep) (encode_body body) fields id version now
      else none

  -- The catalog request signs an empty body.
  unfoldable pub build_catalog_request_at : Text → RuntimeFields → Text → Text → ℤ → Option Parts
  unfolding complete catalog_url
  build_catalog_request_at ep fields id version now =
      if complete fields then with_url (catalog_url ep) [] fields id version now else none

pub record Transport : Type 0 where
  pub endpoint : Text
  pub machine_id : Text
  pub user_id : Text
  pub org_id : Text
  pub org_tags : List Text
  pub data_policy : Text
  pub base_url : Text
  pub timeout : ℤ

pub record Config : Type 0 where
  pub endpoint : Text
  pub machine_id : Text
  pub user_id : Text
  pub organization_id : Text
  pub organization_tags : List Text
  pub data_policy : Text
  pub base_url : Text
  pub timeout : ℤ
  pub allow_test_endpoint : Bool

pub data Made : Type 0 where
  made : Transport → Made
  unknown_endpoint : Made
  invalid_test_endpoint : Made

unfoldable pub new_transport : Config → Made
new_transport cfg =
    if not (
      cfg.endpoint == endpoint_api2 || cfg.endpoint == endpoint_api3 || cfg.endpoint == endpoint_cn)
    then unknown_endpoint
    else if not (cfg.base_url == [])
        && (not cfg.allow_test_endpoint || not (is_loopback_url cfg.base_url))
    then invalid_test_endpoint
    else made (record {
      endpoint = cfg.endpoint;
      machine_id = cfg.machine_id;
      user_id = cfg.user_id;
      org_id = cfg.organization_id;
      org_tags = cfg.organization_tags;
      data_policy = cfg.data_policy;
      base_url = cfg.base_url;
      timeout = if cfg.timeout == pos 0 then pos 30000000000 else cfg.timeout;
    })

pub record StreamRequest : Type 0 where
  pub runtime_fields : RuntimeFields
  pub request_body : Text
  pub request_id : Text
  pub cosy_version : Text
  pub model_key : Text
  pub model_source : Text
  pub business_product : Text
  pub header_overrides : List (Text × Text)

abbrev or_else : Text → Text → Text
or_else a b = if a == [] then b else a

abbrev when_set : Text → List (Text × Text) → List (Text × Text)
when_set a headers = if a == [] then [] else headers

-- strings.Join(tags, ",").
unfoldable pub comma_joined : List Text → Text
comma_joined [] = []
comma_joined (t ∷ []) = t
comma_joined (t ∷ u ∷ ts) = t ++ b',' ∷ comma_joined (u ∷ ts)

abbrev tag_header : List Text → List (Text × Text)
tag_header [] = []
tag_header (t ∷ ts) = (codes "Cosy-Organization-Tags", comma_joined (t ∷ ts)) ∷ []

unfoldable pub request_headers : Transport → Parts → StreamRequest → List (Text × Text)
request_headers t p req =
    ((codes "Accept", codes "text/event-stream")
      ∷ (codes "Authorization", p.auth)
      ∷ (codes "Cache-Control", codes "no-cache")
      ∷ (codes "Connection", codes "keep-alive")
      ∷ (codes "Content-Type", codes "application/json")
      ∷ (codes "Cosy-Business-Product", or_else req.business_product (codes "cli"))
      ∷ (codes "Cosy-Business-Type", codes "agent")
      ∷ (codes "Cosy-ClientType", codes "5")
      ∷ (codes "Cosy-Data-Policy", or_else t.data_policy (codes "agree"))
      ∷ (codes "Cosy-Date", p.date)
      ∷ (codes "Cosy-Key", p.cosy_key)
      ∷ [])
    ++ (when_set t.machine_id (
          (codes "Cosy-MachineId", t.machine_id)
          ∷ (codes "Cosy-MachineToken", t.machine_id)
          ∷ (codes "Cosy-MachineType", codes "5")
          ∷ [])
        ++ (when_set t.user_id ((codes "Cosy-User", t.user_id) ∷ [])
            ++ (when_set t.org_id ((codes "Cosy-Organization-Id", t.org_id) ∷ [])
                ++ (tag_header t.org_tags
                    ++ (when_set req.model_key (
                          (codes "X-Model-Key", req.model_key)
                          ∷ (codes "X-Model-Source", req.model_source)
                          ∷ [])
                        ++ ((codes "Cosy-Scene", codes "assistant")
                            ∷ (codes "Cosy-Version", p.cosy_version)
                            ∷ (codes "Login-Version", codes "v2")
                            ∷ []))))))

-- Header.Set for each override, in the order in which the range meets them.
unfoldable pub overridden : List (Text × Text) → List (Text × Text) → List (Text × Text)
overridden [] headers = headers
overridden ((k, v) ∷ rest) headers = overridden rest (insert k v headers)

abbrev request_url : Transport → Parts → Text
request_url t p = if t.base_url == [] then p.url else trim_right_slash t.base_url ++ chat_path

abbrev pub sent : Transport → Parts → StreamRequest → HttpRequest
sent t p req = record {
  url = request_url t p;
  headers = overridden req.header_overrides (request_headers t p req);
  body = p.body;
}

module _ (readers : Readers) (ctx : Context) (send : HttpRequest → Option Exchange) where
  abbrev on_sent : Option Exchange → Dialed × List Effect
  on_sent none = (refused (plain_error (codes "cosy: create request")), began ∷ ended ∷ [])
  on_sent (some x) = let (d, es) = on_exchange cosy_dialect readers ctx x in (d, began ∷ es)

  abbrev on_parts : Transport → StreamRequest → Option Parts → Dialed × List Effect
  on_parts t req none = (refused (plain_error (codes "cosy: build request")), [])
  on_parts t req (some p) = on_sent (send (sent t p req))

  unfoldable pub stream : Signer → Transport → StreamRequest → ℤ → Dialed × List Effect
  unfolding request_headers overridden
  stream signer t req now =
      if complete req.runtime_fields
      then on_parts t req (
          build_http_request_at signer t.endpoint req.request_body req.runtime_fields req.request_id
            req.cosy_version now)
      else (refused (plain_error (codes "cosy: runtime fields incomplete")), [])
