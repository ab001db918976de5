-- ===== src/Management.antt =====
-- The management handlers that write an account's file: management_save_merge.go, and refreshQuota and
-- updateProfile of management_quota.go, whose answers are
-- left out but for their status. encoding/json is a record of
-- functions; the files of the host are a map from the index of an account to its file.
pub mod Merge
pub mod Stale
use qoder_cpa.Prelude.{
  ℕ, Bool, true, false, not, ◌&&◌, ◌||◌, List, [], ◌∷◌, ◌++◌, Option, none, some, Text, text_eq,
  ◌==◌, codes, if◌then◌else◌, trim_space, mem, lookup, insert,
}
use qoder_cpa.Auth.{Credential, StorageJson, to_credential, is_valid_profile}

-- The top level of a JSON document: raw values by key.
abbrev pub Doc : Type 0
Doc = List (Text × Text)

abbrev owned_keys : List Text
owned_keys =
    codes "type"
    ∷ codes "access_token"
    ∷ codes "refresh_token"
    ∷ codes "expires_at"
    ∷ codes "user_id"
    ∷ codes "user_type"
    ∷ codes "machine_id"
    ∷ codes "email"
    ∷ codes "label"
    ∷ codes "organization_id"
    ∷ codes "organization_tags"
    ∷ codes "runtime_info"
    ∷ codes "runtime_key"
    ∷ codes "transport_profile"
    ∷ []

-- qoderAuthOwnedKeys[k].
unfoldable pub is_owned : Text → Bool
is_owned k = mem k owned_keys

-- The loop of mergeForeignAuthMetadata over the old document.
unfoldable pub merge_old : Doc → Doc → Doc
unfolding is_owned
merge_old [] merged = merged
merge_old ((k, v) ∷ old) merged = merge_old old (if is_owned k then merged else insert k v merged)

pub record QuotaRequest : Type 0 where
  pub auth_index : Text

pub record ProfileRequest : Type 0 where
  pub auth_index : Text
  pub profile : Text

-- encoding/json: documents, the stored credential and the requests; `write_storage` is `none` where it
-- fails.
pub record Json : Type 0 where
  pub doc : Text → Option Doc
  pub write_doc : Doc → Option Text
  pub storage : Text → Option StorageJson
  pub write_storage : StorageJson → Option Text
  pub quota_request : Text → Option QuotaRequest
  pub profile_request : Text → Option ProfileRequest

abbrev merge_into : Json → Option Doc → Option Doc → Option Text
merge_into json none old = none
merge_into json (some fresh) none = none
merge_into json (some fresh) (some old) = json.write_doc (merge_old old fresh)

-- An old document of no bytes is none at all.
unfoldable pub merge_foreign_auth_metadata : Json → Text → Text → Option Text
merge_foreign_auth_metadata json old fresh =
    merge_into json (json.doc fresh) (if old == [] then some [] else json.doc old)

pub record File : Type 0 where
  pub name : Text
  pub json : Text

abbrev pub Files : Type 0
Files = List (Text × File)

-- What the host gives for an index: no such account, an answer that is not decoded, or the file.
pub data Found : Type 0 where
  missing : Found
  broken : Found
  found : File → Found

-- host.auth.get and host.auth.save, which may fail; a save replaces the whole content.
pub record Host : Type 0 where
  pub get : Text → Files → Found
  pub save : File → Files → Option Files

abbrev pub or_fresh : Option Text → Text → Text
or_fresh none fresh = fresh
or_fresh (some merged) fresh = merged

-- The name of the file with what is written to it.
unfoldable pub file_to_save : Json → File → Text → File
unfolding merge_foreign_auth_metadata
file_to_save json old fresh = record {
  name = old.name;
  json = or_fresh (merge_foreign_auth_metadata json old.json fresh) fresh;
}

-- saveAuthPreservingHostKeys; `old` is the file that was read before.
abbrev pub save_auth_preserving_host_keys : Json → Host → File → Text → Files → Option Files
save_auth_preserving_host_keys json host old fresh files =
    host.save (file_to_save json old fresh) files

-- What of a quota is kept with the account.
pub record Quota : Type 0 where
  pub nickname : Text
  pub email : Text
  pub mobile : Text
  pub user_type : Text

abbrev better : Text → Text → Text
better old new = if old == [] then new else old

-- The writes of refreshQuota to the stored credential.
unfoldable pub enriched : StorageJson → Quota → StorageJson
enriched s q = record s {
  user_type = better q.user_type s.user_type;
  label = better s.label q.nickname;
  email = better s.email (better q.email q.mobile);
}

-- `changed`.
unfoldable pub changes : StorageJson → Quota → Bool
changes s q =
    (not (q.user_type == []) && not (q.user_type == s.user_type))
    || (s.label == [] && not (q.nickname == []))
    || (s.email == [] && (not (q.email == []) || not (q.mobile == [])))

-- What a handler answers: an error with its status, that it went well, or an error of Go.
pub data Answer : Type 0 where
  refused : ℕ → Text → Answer
  fine : Text → Answer
  go_error : Text → Answer

abbrev kept : Option Files → Files → Files
kept none files = files
kept (some files') files = files'

module _ (json : Json) (host : Host) where
  abbrev written : Option Text → File → Files → Files
  written none old files = files
  written (some fresh) old files =
      kept (save_auth_preserving_host_keys json host old fresh files) files

  -- What refreshQuota writes, after the quota came; an error of the save is dropped.
  unfoldable pub write_back : File → StorageJson → Quota → Files → Files
  unfolding file_to_save changes enriched
  write_back old s q files =
      if changes s q && not (old.name == [])
      then written (json.write_storage (enriched s q)) old files
      else files

  -- `fetch` asks the upstream; while it does, others may write the files: that is `meanwhile`.
  module _ (fetch : Credential → Option Quota) (meanwhile : Files → Files) where
    abbrev with_quota : Option Quota → Text → File → StorageJson → Files → Answer × Files
    with_quota none index old s files = (refused 502 (codes "quota refresh failed"), files)
    with_quota (some q) index old s files = (fine index, write_back old s q files)

    abbrev with_storage : Option StorageJson → Text → File → Files → Answer × Files
    with_storage none index old files =
        (refused 400 (codes "account is not a qoder credential"), files)
    with_storage (some s) index old files =
        if s.access_token == []
        then (refused 400 (codes "account is not a qoder credential"), files)
        else with_quota (fetch (to_credential s)) index old s (meanwhile files)

    abbrev with_found : Found → Text → Files → Answer × Files
    with_found missing index files = (refused 404 (codes "account not found"), files)
    with_found broken index files = (refused 400 (codes "account is not a qoder credential"), files)
    with_found (found old) index files = with_storage (json.storage old.json) index old files

    abbrev quota_asked : Option QuotaRequest → Files → Answer × Files
    quota_asked none files = (refused 400 (codes "auth_index is required"), files)
    quota_asked (some r) files =
        if trim_space r.auth_index == []
        then (refused 400 (codes "auth_index is required"), files)
        else with_found (host.get (trim_space r.auth_index) files) (trim_space r.auth_index) files

    -- refreshQuota where a client of the quota is there; the answer's quota is left out.
    unfoldable pub refresh_quota : Text → Files → Answer × Files
    unfolding write_back
    refresh_quota raw files = quota_asked (json.quota_request raw) files

  abbrev saved : Option Files → Text → Files → Answer × Files
  saved none index files = (refused 502 (codes "account update failed"), files)
  saved (some files') index files = (fine index, files')

  abbrev encoded : Option Text → Text → File → Files → Answer × Files
  encoded none index old files = (go_error (codes "encode auth"), files)
  encoded (some fresh) index old files =
      if old.name == []
      then (refused 400 (codes "account has no writable name"), files)
      else saved (save_auth_preserving_host_keys json host old fresh files) index files

  abbrev to_profile : Option StorageJson → ProfileRequest → File → Files → Answer × Files
  to_profile none r old files = (refused 400 (codes "account is not a qoder credential"), files)
  to_profile (some s) r old files =
      if s.user_id == [] || s.access_token == []
      then (refused 400 (codes "account is not a qoder credential"), files)
      else encoded (json.write_storage (record s { profile = r.profile })) r.auth_index old files

  abbrev of_file : Found → ProfileRequest → Files → Answer × Files
  of_file missing r files = (refused 404 (codes "account not found"), files)
  of_file broken r files = (go_error (codes "decode auth"), files)
  of_file (found old) r files = to_profile (json.storage old.json) r old files

  abbrev trimmed : ProfileRequest → ProfileRequest
  trimmed r = record { auth_index = trim_space r.auth_index; profile = trim_space r.profile }

  abbrev requested : Option ProfileRequest → Files → Answer × Files
  requested none files = (refused 400 (codes "invalid JSON body"), files)
  requested (some r) files =
      if (trimmed r).auth_index == [] || not (is_valid_profile (trimmed r).profile)
      then (refused 400 (codes "auth_index and a valid transport_profile are required"), files)
      else of_file (host.get (trimmed r).auth_index files) (trimmed r) files

  unfoldable pub update_profile : Text → Files → Answer × Files
  unfolding file_to_save
  update_profile raw files = requested (json.profile_request raw) files
