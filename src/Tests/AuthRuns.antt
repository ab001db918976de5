-- ===== src/Tests/AuthRuns.antt =====
-- Login, refresh and stored credentials on concrete inputs.
use qoder_cpa.Prelude.{
  ℕ, false, List, [], ◌∷◌, none, some, Text, text_eq, nat_eq, codes, pos, int_eq, ◌*ℤ◌, int64, ◌≡◌,
  ◌≢◌, refl, arith, length, contains, lookup, insert, delete,
}
use qoder_cpa.Auth.{
  Credential, Reply, response, do_http_request, limited, read_body, validate, is_valid_profile,
  new_auth_id, auth_id_for_profile, cosy_api2,
}
use qoder_cpa.Auth.Hex.{hex_encode}
use qoder_cpa.Auth.Scrub.{scrub_secrets}
use qoder_cpa.Auth.Refresh.{
  TokenRefreshResponse, PendingResponse, Decoder, RefreshRequest, refresh, alone, rotated,
}
use qoder_cpa.Auth.Refresh.Laws.{IsRotated, refresh-IsRotated, refresh_error_clean}
use qoder_cpa.Auth.Refresh.Flight.{
  leading, returned, Event, join, settle, wake, no_flights, run, step,
}
use qoder_cpa.Auth.Refresh.Flight.Shared.{leading_alone, waiting_served}

program : Unit {0}
unfolding lookup insert delete contains limited read_body do_http_request validate is_valid_profile
    new_auth_id hex_encode auth_id_for_profile scrub_secrets refresh step run int64 ◌*ℤ◌
program = tt

abbrev account : Credential
account = record {
  access_token = codes "access-1";
  refresh_token = codes "refresh-1";
  expires_at = pos 10;
  user_id = codes "u1";
  user_type = codes "personal_standard";
  machine_id = codes "m-1";
  email = codes "a@b";
  organization_id = [];
  organization_tags = [];
  runtime_info = [];
  runtime_key = codes "key-12345";
  profile = cosy_api2;
}

abbrev sha256 : Text → Text
sha256 s = length s ∷ []

abbrev token : TokenRefreshResponse
token = record {
  token = codes "access-2";
  access_token = [];
  refresh_token = [];
  token_type = codes "bearer";
  expires_in = pos 3600;
  scope = [];
}

abbrev gives_token : Decoder
gives_token = record { refreshed = λ body. some token; pending = λ body. none }

abbrev no_token : TokenRefreshResponse
no_token = record token { token = [] }

abbrev revoked : PendingResponse
revoked = record {
  error = codes "invalid_grant";
  error_description = codes "refresh-1 was revoked";
}

abbrev gives_error : Decoder
gives_error = record { refreshed = λ body. some no_token; pending = λ body. some revoked }

abbrev asked : (Text → Text → Reply) → RefreshRequest
asked send = record {
  client = some send;
  token_url = codes "https://x";
  client_id = codes "qoder-cpa";
  cred = account;
  ttl = pos 0;
}

abbrev answers : ℕ → Text → Text → Reply
answers status url posted = response status (codes "{}")

refresh-IsRotated_example :
    IsRotated (asked (answers 200)) (rotated (pos 5) (asked (answers 200)) token)
unfolding program
refresh-IsRotated_example =
    refresh-IsRotated sha256 gives_token (pos 5) (asked (answers 200))
      (rotated (pos 5) (asked (answers 200)) token) refl

refresh_error_clean_example : contains (codes "*** was revoked") (codes "refresh-1") ≡ false
unfolding program
refresh_error_clean_example =
    refresh_error_clean sha256 alone gives_error (pos 5) (asked (answers 200)) (codes "refresh-1")
      (codes "*** was revoked") refl (omega arith) refl refl refl

abbrev key : Text
key = codes "qoder-1"

-- Two callers of one account, and one of another.
abbrev calls : List (Event ℕ)
calls = join 1 key ∷ join 2 key ∷ join 3 (codes "qoder-2") ∷ []

leading_alone_example : (run calls no_flights).phase 2 ≢ leading key
unfolding program
leading_alone_example = leading_alone calls key 1 2 refl (omega arith)

waiting_served_example :
    (r : ℕ) × ((run (settle 1 7 ∷ wake 2 ∷ []) (run calls no_flights)).phase 2 ≡ returned key 1 r)
unfolding program
waiting_served_example = waiting_served calls key 2 1 7 refl
