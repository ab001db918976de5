-- ===== src/Models.antt =====
-- model_provider.go: the models of an account, as the host lists them, and the catalog that they are
-- resolved in. The control plane gives the upstream's models; a model has the fields that are read.
pub mod Search
pub mod Suffix
pub mod Listed
pub mod Catalog
use qoder_cpa.Prelude.{
  ℕ, zero, suc, ◌+◌, Bool, true, false, not, ◌&&◌, ◌||◌, List, [], ◌∷◌, ◌++◌, Option, none, some,
  Text, text_eq, ◌==◌, codes, if◌then◌else◌, length, trim_prefix, trim_space, mem, lookup, insert,
  ℤ, pos, ltb_ℤ,
}
use qoder_cpa.Transport.{digits}
use qoder_cpa.Registry.{ModelMeta, Registry, store_catalog}
use qoder_cpa.Request.{provider_prefix, is_some}
use qoder_cpa.Auth.{Credential, AuthError, message, Result, ok, err, ◌>>=◌, new_auth_id}
use qoder_cpa.Auth.Provider.{Codec, parse_stored_credential, equal_fold, provider_name}

pub record Model : Type 0 where
  pub id : Text
  pub name : Text
  pub is_reasoning : Bool
  pub max_input_tokens : ℤ

-- The fields that are the same for every model are left out; a limit that is absent is 0.
pub record ModelInfo : Type 0 where
  pub id : Text
  pub name : Text
  pub display_name : Text
  pub input_token_limit : ℤ
  pub thinking : Bool

unfoldable pub public_model_id : Text → Text
public_model_id name = if trim_space name == [] then [] else provider_prefix ++ trim_space name

unfoldable pub display_name_for_model : Text → Text → Text
display_name_for_model id upstream =
    if trim_space upstream == [] then trim_space id else trim_space upstream

abbrev pub is_open : Text → Option Text → Bool
is_open internal none = true
is_open internal (some existing) = existing == internal

-- The loop over the suffixes; `none` means that the fuel ran out.
unfoldable pub first_free : (ℕ → Text) → ℕ → ℕ → List (Text × Text) → Option Text
first_free candidate zero n mapping = none
first_free candidate (suc fuel) n mapping =
    let later = first_free candidate fuel (n + 1) mapping in
    if is_some (lookup (candidate n) mapping) then later else some (candidate n)

-- fmt.Sprint of a positive int, which has 19 digits at most.
abbrev pub numbered : Text → ℕ → Text
numbered internal n = public_model_id (internal ++ b'-' ∷ digits 20 n [])

unfoldable pub unique_public_model_id : Text → Text → List (Text × Text) → Option Text
unfolding first_free
unique_public_model_id name internal mapping =
    if public_model_id name == []
    then some []
    else if is_open internal (lookup (public_model_id name) mapping)
    then some (public_model_id name)
    else if is_open internal (lookup (public_model_id internal) mapping)
    then some (public_model_id internal)
    else first_free (numbered internal) (suc (length mapping)) 2 mapping

-- The variables of the loop over the upstream's models.
pub record Listing : Type 0 where
  pub mapping : List (Text × Text)
  pub meta : List (Text × ModelMeta)
  pub seen : List Text
  pub models : List ModelInfo

abbrev pub no_listing : Listing
no_listing = record { mapping = []; meta = []; seen = []; models = [] }

abbrev pub meta_of : Model → ModelMeta
meta_of m = record { is_reasoning = m.is_reasoning; max_input_tokens = m.max_input_tokens }

abbrev pub info_of : Text → Text → Text → Model → ModelInfo
info_of public internal name m = record {
  id = public;
  name = internal;
  display_name = name;
  input_token_limit = if ltb_ℤ (pos 0) m.max_input_tokens then m.max_input_tokens else pos 0;
  thinking = m.is_reasoning;
}

abbrev pub saw : Text → Listing → Listing
saw internal l = record l { seen = internal ∷ l.seen }

abbrev pub put : Text → Text → Text → Model → Listing → Listing
put public internal name m l = if public == [] then saw internal l else record {
  mapping = insert public internal l.mapping;
  meta = insert public (meta_of m) l.meta;
  seen = internal ∷ l.seen;
  models = l.models ++ info_of public internal name m ∷ [];
}

abbrev pub put_found : Option Text → Text → Text → Model → Listing → Option Listing
put_found none internal name m l = none
put_found (some public) internal name m l = some (put public internal name m l)

abbrev pub internal_id_of : Model → Text
internal_id_of m = trim_space (trim_prefix m.id provider_prefix)

-- One pass of the loop.
unfoldable pub list_model : Model → Listing → Option Listing
unfolding unique_public_model_id display_name_for_model public_model_id
list_model m l =
    let internal = internal_id_of m in
    let name = display_name_for_model internal m.name in
    if internal == [] || mem internal l.seen
    then some l
    else put_found (unique_public_model_id name internal l.mapping) internal name m l

abbrev pub then_list {ℓ} : {A : Type ℓ} → Option Listing → (Listing → Option A) → Option A
then_list none f = none
then_list (some l) f = f l

-- `none` means that a loop over suffixes does not return.
unfoldable pub list_models : List Model → Listing → Option Listing
unfolding list_model
list_models [] l = some l
list_models (m ∷ ms) l = then_list (list_model m l) λ l'. list_models ms l'

pub record AuthModelRequest : Type 0 where
  pub auth_provider : Text
  pub auth_id : Text
  pub storage_json : Text

abbrev pub catalog_id : (Text → Text) → AuthModelRequest → Credential → Text
catalog_id sha256 req cred =
    if trim_space req.auth_id == [] then new_auth_id sha256 cred.user_id else trim_space req.auth_id

abbrev stored : Text → Registry → Option Listing → Option (List ModelInfo × Registry)
stored auth r none = none
stored auth r (some l) = some (l.models, store_catalog auth l.mapping l.meta r)

-- authService.models, once its request was decoded; `fetch` is the client of the host and of the
-- control plane. `none` inside means that it does not return.
unfoldable pub models :
    (Text → Text)
    → Codec
    → (Credential → Result (List Model))
    → AuthModelRequest
    → Registry
    → Result (Option (List ModelInfo × Registry))
unfolding list_models
models sha256 codec fetch req r =
    if not (req.auth_provider == []) && not (equal_fold req.auth_provider provider_name)
    then err (message (codes "unsupported auth provider"))
    else parse_stored_credential codec req.storage_json >>= λ cred. fetch cred >>= λ upstream.
        ok (stored (catalog_id sha256 req cred) r (list_models upstream no_listing))
