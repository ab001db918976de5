-- ===== src/Tests/RegionRuns.antt =====
-- A login in the CN region and a refresh, as the host asks for them.
use qoder_cpa.Prelude.{
  [], ◌∷◌, none, some, Text, text_eq, codes, pos, int_eq, ◌*ℤ◌, int64, lookup, insert, delete, ◌≡◌,
  refl,
}
use qoder_cpa.VerifyHost.{is_loopback}
use qoder_cpa.Auth.{
  Credential, ok, Reply, response, limited, do_http_request, read_body, validate, is_valid_profile,
  from_credential, to_credential, new_auth_id, auth_id_for_profile, cosy_cn,
}
use qoder_cpa.Auth.Hex.{hex_encode}
use qoder_cpa.Auth.Scrub.{scrub_secrets}
use qoder_cpa.Auth.Login.{
  World, new_world, store_get, store_set, store_delete, default_config, default_config_cn, Parsed,
  Standard, Draws, trim_right_slash, new_pkce_verifier, pkce_challenge, new_nonce, new_machine_id,
  new_transaction_id, is_login_base, check_base, device_url, new_transaction, device_login,
}
use qoder_cpa.Auth.Login.Poll.{
  TokenResponse, PollStatus, Poll, do_poll_request, read_reply, turn_of, ask, poll_at, poll_login,
}
use qoder_cpa.Auth.Login.Poll as LoginPoll
use qoder_cpa.Auth.Refresh.{TokenRefreshResponse, RefreshResponse, refresh, alone}
use qoder_cpa.Auth.Refresh as TokenRefresh
use qoder_cpa.Auth.Provider.{
  Codec, checked, described, auth_data, parse_stored_credential, refresh_after_for, equal_fold,
}
use qoder_cpa.Auth.Provider.Service.{
  default_auth_service, region_is_cn, region_config, start, Clients, completed, poll, refresh_url,
  refresh_request, RefreshAnswer, refresh_stored,
}
use qoder_cpa.Auth.Provider.Service.Region.{poll_region}

program : Unit {0}
unfolding lookup insert delete is_loopback limited validate is_valid_profile new_auth_id hex_encode
    auth_id_for_profile new_world store_get store_set store_delete default_config default_config_cn
    trim_right_slash new_pkce_verifier pkce_challenge new_nonce new_machine_id new_transaction_id
    is_login_base check_base device_url new_transaction device_login do_poll_request read_reply
    turn_of ask poll_at poll_login checked described auth_data parse_stored_credential
    refresh_after_for from_credential to_credential int64 ◌*ℤ◌ default_auth_service region_is_cn
    start completed poll refresh_request refresh_stored equal_fold do_http_request read_body
    scrub_secrets refresh
program = tt

abbrev page : Parsed
page = record {
  scheme = codes "https";
  hostname = codes "qoder.com.cn";
  with_query = λ q. codes "https://qoder.com.cn/?q";
}

abbrev std : Standard
std = record { sha256 = λ s. s; raw_url_base64 = λ s. s; parse_url = λ s. some page }

abbrev draws : Draws
draws = record {
  verifier = some (codes "v");
  nonce = some (codes "n");
  machine = some (1 ∷ []);
  transaction = some (2 ∷ []);
}

abbrev begun : World
begun = (start default_auth_service std draws (pos 0) (codes "CN") new_world).0

abbrev granted : TokenResponse
granted = record {
  access_token = codes "a";
  refresh_token = codes "r";
  user_id = codes "u";
  expires_at = [];
  expires_in = pos 60;
}

abbrev json : LoginPoll.Decoder
json = record { token = λ body. some granted; pending = λ body. none; rfc3339 = λ s. none }

abbrev clients : Clients
clients = record {
  control = λ cn. ok (λ c. ok (record {
    user_id = codes "u";
    email = codes "e";
    organization_id = [];
    organization_tags = [];
  }));
  derive = λ c. ok (record { encrypt_user_info = codes "i"; key = codes "k" });
}

abbrev asks : Poll
asks = record {
  config = default_config;
  client = some (λ url. response 200 (codes "{}"));
  id = codes "txn-02";
  now = pos 1;
  later = pos 2;
}

abbrev stored : Credential
stored = record {
  access_token = codes "a";
  refresh_token = codes "r";
  expires_at = pos 60000000002;
  user_id = codes "u";
  user_type = [];
  machine_id = codes "m-01";
  email = codes "e";
  organization_id = [];
  organization_tags = [];
  runtime_info = codes "i";
  runtime_key = codes "k";
  profile = cosy_cn;
}

-- A codec that knows one document.
abbrev codec : Codec
codec = record { encode = λ s. some (codes "{..}"); decode = λ raw. some (from_credential stored) }

abbrev same_text : Text → Text
same_text s = s

abbrev answers : Text → Text → Reply
answers url posted = response 200 (codes "{}")

poll_region_example :
    (cred : Credential) × (auth_data same_text codec (pos 2) cred []
      ≡ ok (described same_text (pos 2) stored [] (codes "{..}")))
    × ((refresh_request default_auth_service answers cred).token_url
        ≡ refresh_url (region_config default_auth_service (region_is_cn (codes "CN"))))
unfolding program
poll_region_example =
    poll_region same_text codec default_auth_service std json clients (codes "CN") asks begun
      (described same_text (pos 2) stored [] (codes "{..}")) answers refl

abbrev fresh : TokenRefreshResponse
fresh = record {
  token = codes "b";
  access_token = [];
  refresh_token = [];
  token_type = [];
  expires_in = pos 3600;
  scope = [];
}

abbrev reads : TokenRefresh.Decoder
reads = record { refreshed = λ body. some fresh; pending = λ body. none }

abbrev renewed : Credential
renewed = record stored { access_token = codes "b"; expires_at = pos 3600000000005 }

abbrev answer : RefreshAnswer
answer = record {
  auth = described same_text (pos 5) renewed [] (codes "{..}");
  next_refresh_after = pos 3600000000005;
}
