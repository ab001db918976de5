-- ===== src/Auth/Provider.antt =====
-- auth_provider.go: what the host is given to store for an account, and how it is read back. The
-- documents of encoding/json, the clients of the control plane and of the host are parameters.
pub mod Store
pub mod Service
use qoder_cpa.Prelude.{
  ℕ, ◌+◌, Bool, true, false, ◌||◌, ◌&&◌, not, List, [], ◌∷◌, ◌++◌, Option, none, some, Text,
  text_eq, ◌==◌, codes, if◌then◌else◌, leb, map, ℤ, pos, negsuc, int_eq, plus, ltb_ℤ,
}
use qoder_cpa.Auth.{
  Credential, AuthError, message, invalid_profile, Result, ok, err, ◌>>=◌, validate,
  is_valid_profile, StorageJson, from_credential, to_credential, auth_id_for_profile,
}

-- The zero instant of Go, the first of January of year 1, and five minutes, in nanoseconds.
abbrev pub zero_time : ℤ
zero_time = negsuc 62135596799999999999

abbrev pub lead_back : ℤ
lead_back = negsuc 299999999999

unfoldable pub refresh_after_for : ℤ → ℤ → ℤ
refresh_after_for now expiry =
    let next = plus expiry lead_back in
    if expiry == zero_time then zero_time else if ltb_ℤ next now then now else next

-- encoding/json on the stored document.
pub record Codec : Type 0 where
  pub encode : StorageJson → Option Text
  pub decode : Text → Option StorageJson

pub record AuthData : Type 0 where
  pub provider : Text
  pub id : Text
  pub file_name : Text
  pub label : Text
  pub storage_json : Text
  pub transport_profile : Text
  pub next_refresh_after : ℤ

abbrev pub provider_name : Text
provider_name = codes "qoder"

abbrev or_else : Text → Text → Text
or_else a b = if a == [] then b else a

-- A credential that may be stored: it is valid, and of a known profile.
unfoldable pub checked : Credential → Result Credential
checked cred = validate cred >>= λ fine.
    if is_valid_profile cred.profile then ok cred else err (invalid_profile cred.profile)

abbrev written : Option Text → Result Text
written none = err (message (codes "encode auth storage"))
written (some raw) = ok raw

unfoldable pub described : (Text → Text) → ℤ → Credential → Text → Text → AuthData
described sha256 now c file_name raw = record {
  provider = provider_name;
  id = auth_id_for_profile sha256 c.user_id c.profile;
  file_name = or_else file_name (auth_id_for_profile sha256 c.user_id c.profile ++ codes ".json");
  label = or_else c.email (auth_id_for_profile sha256 c.user_id c.profile);
  storage_json = raw;
  transport_profile = c.profile;
  next_refresh_after = refresh_after_for now c.expires_at;
}

unfoldable pub auth_data : (Text → Text) → Codec → ℤ → Credential → Text → Result AuthData
unfolding checked described
auth_data sha256 codec now cred file_name = do
  c ← checked cred
  raw ← written (codec.encode (from_credential c))
  ok (described sha256 now c file_name raw)

abbrev decoded : Option StorageJson → Result Credential
decoded none = err (message (codes "decode qoder auth"))
decoded (some s) = ok (to_credential s)

unfoldable pub parse_stored_credential : Codec → Text → Result Credential
unfolding checked
parse_stored_credential codec raw = decoded (codec.decode raw) >>= λ c. checked c

abbrev lower_letter : ℕ → ℕ
lower_letter c = if leb b'A' c && leb c b'Z' then c + 32 else c

-- strings.EqualFold where `t` is of lower case ASCII letters other than k and s, which alone have
-- other letters that fold to them.
unfoldable pub equal_fold : Text → Text → Bool
equal_fold s t = map lower_letter s == t

pub record ParseRequest : Type 0 where
  pub provider : Text
  pub raw_json : Text
  pub file_name : Text

pub record ParseResponse : Type 0 where
  pub handled : Bool
  pub auth : Option AuthData

-- authService.parse, once its request was decoded.
unfoldable pub parse : (Text → Text) → Codec → ℤ → ParseRequest → Result ParseResponse
unfolding parse_stored_credential auth_data
parse sha256 codec now req =
    if not (req.provider == []) && not (equal_fold req.provider provider_name)
    then ok (record { handled = false; auth = none })
    else parse_stored_credential codec req.raw_json >>= λ cred.
        auth_data sha256 codec now cred req.file_name >>= λ d.
        ok (record { handled = true; auth = some d })
