-- ===== src/Tests/LoginRuns.antt =====
-- A device login, its polls and the stored account on concrete inputs.
use qoder_cpa.Prelude.{
  ℕ, [], ◌∷◌, Option, none, some, Text, text_eq, codes, ℤ, pos, int_eq, ◌*ℤ◌, int64, lookup, insert,
  delete, ◌≡◌, ◌⊎◌, refl,
}
use qoder_cpa.VerifyHost.{is_loopback}
use qoder_cpa.Auth.{
  Credential, ok, err, message, response, limited, validate, is_valid_profile, from_credential,
  to_credential, new_auth_id, auth_id_for_profile, cosy_cn,
}
use qoder_cpa.Auth.Hex.{hex_encode}
use qoder_cpa.Auth.Login.{
  error, Transaction, World, new_world, store_get, store_set, store_delete, default_config,
  default_config_cn, Parsed, Standard, Draws, trim_right_slash, new_pkce_verifier, pkce_challenge,
  new_nonce, new_machine_id, new_transaction_id, is_login_base, check_base, device_url,
  new_transaction, device_login,
}
use qoder_cpa.Auth.Login.Poll.{
  TokenResponse, Decoder, Poll, do_poll_request, read_reply, turn_of, ask, poll_at, poll_login,
}
use qoder_cpa.Auth.Login.Poll.Reach.{login, Reach, here, next, IsSound, Reach-new_world-IsSound}
use qoder_cpa.Auth.Provider.Service.{Clients}
use qoder_cpa.Auth.Login.Poll.Kinds.{HasEnded, poll_login_ended}
use qoder_cpa.Auth.Provider.{
  Codec, checked, described, auth_data, parse_stored_credential, refresh_after_for,
}
use qoder_cpa.Auth.Provider.Store.{parse_stored_credential-auth_data}

program : Unit {0}
unfolding lookup insert delete is_loopback limited validate is_valid_profile new_auth_id hex_encode
    auth_id_for_profile new_world store_get store_set store_delete default_config default_config_cn
    trim_right_slash new_pkce_verifier pkce_challenge new_nonce new_machine_id new_transaction_id
    is_login_base check_base device_url new_transaction device_login do_poll_request read_reply
    turn_of ask poll_at poll_login checked described auth_data parse_stored_credential
    refresh_after_for from_credential to_credential int64 ◌*ℤ◌
program = tt

abbrev page : Parsed
page = record {
  scheme = codes "https";
  hostname = codes "qoder.com";
  with_query = λ q. codes "https://qoder.com/?q";
}

abbrev std : Standard
std = record { sha256 = λ s. s; raw_url_base64 = λ s. s; parse_url = λ s. some page }

abbrev draws : Draws
draws = record {
  verifier = some (codes "v");
  nonce = some (codes "n");
  machine = some (1 ∷ []);
  transaction = some (2 ∷ []);
}

abbrev begun : World
begun = (device_login std draws (pos 0) default_config [] (pos 0) new_world).0

abbrev begun_reached : Reach new_world begun
begun_reached = next here (login std draws (pos 0) default_config [] (pos 0))

abbrev txn_id : Text
txn_id = codes "txn-02"

Reach-new_world-IsSound_example : IsSound begun
Reach-new_world-IsSound_example = Reach-new_world-IsSound begun_reached

abbrev granted : TokenResponse
granted = record {
  access_token = codes "a";
  refresh_token = codes "r";
  user_id = codes "u";
  expires_at = [];
  expires_in = pos 60;
}

abbrev json : Decoder
json = record { token = λ body. some granted; pending = λ body. none; rfc3339 = λ s. none }

abbrev asks : ℕ → ℤ → Poll
asks status now = record {
  config = default_config;
  client = some (λ url. response status (codes "{}"));
  id = txn_id;
  now = now;
  later = now;
}

poll_login_ended_example :
    ((poll_login std json (asks 200 (pos 1)) begun).0 ≡ begun)
    ⊎ HasEnded txn_id begun
        (poll_login std json (asks 200 (pos 1)) begun).0
        (poll_login std json (asks 200 (pos 1)) begun).1
poll_login_ended_example = poll_login_ended std json (asks 200 (pos 1)) begun

abbrev the_txn : Option Transaction → Transaction
the_txn none = record {
  id = [];
  verifier = [];
  nonce = [];
  machine = [];
  device_code = [];
  verify_url = [];
  expires_at = pos 0;
  created_at = pos 0;
  status = error;
  credential = none;
  err_message = [];
}
the_txn (some t) = t

abbrev ended : World
ended = (poll_login std json (asks 200 (pos 1)) begun).0

abbrev stored : Credential
stored = record {
  access_token = codes "a";
  refresh_token = codes "r";
  expires_at = pos 900;
  user_id = codes "u";
  user_type = [];
  machine_id = codes "m";
  email = [];
  organization_id = [];
  organization_tags = [];
  runtime_info = codes "i";
  runtime_key = codes "k";
  profile = cosy_cn;
}

-- The control plane names the user, and no fields are derived.
abbrev clients : Clients
clients = record {
  control = λ cn. ok λ c. ok (record {
    user_id = codes "other";
    email = codes "o@x";
    organization_id = [];
    organization_tags = [];
  });
  derive = λ c. err (message (codes "no entropy"));
}

abbrev given : Option Credential → Credential
given none = stored
given (some c) = c

-- A codec that knows one document.
abbrev codec : Credential → Codec
codec c = record { encode = λ s. some (codes "{..}"); decode = λ raw. some (from_credential c) }

abbrev same_text : Text → Text
same_text s = s

parse_stored_credential-auth_data_example :
    parse_stored_credential (codec stored) (codes "{..}") ≡ ok stored
unfolding program
parse_stored_credential-auth_data_example =
    parse_stored_credential-auth_data same_text (codec stored) (pos 5) stored []
      (described same_text (pos 5) stored [] (codes "{..}")) refl refl
