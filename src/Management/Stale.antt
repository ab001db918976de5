-- ===== src/Management/Stale.antt =====
-- refreshQuota of management_quota.go and those who write the same file while it asks the upstream.
use qoder_cpa.Prelude.{true, not, ◌||◌, [], Option, none, some, Text, text_eq, ◌==◌, ◌≡◌, ◌⊎◌}
use qoder_cpa.Auth.{Credential, StorageJson}
use qoder_cpa.Management.{
  Json, File, Files, Host, found, Quota, merge_foreign_auth_metadata, written,
}

-- What the quota may change of a credential: its class, and a name that it does not have.
pub record IsEnriched (s t : StorageJson) : Type 0 where
  pub access_token : t.access_token ≡ s.access_token
  pub refresh_token : t.refresh_token ≡ s.refresh_token
  pub expires_at : t.expires_at ≡ s.expires_at
  pub profile : t.profile ≡ s.profile
  pub user_id : t.user_id ≡ s.user_id
  pub machine_id : t.machine_id ≡ s.machine_id
  pub organization_id : t.organization_id ≡ s.organization_id
  pub organization_tags : t.organization_tags ≡ s.organization_tags
  pub runtime_info : t.runtime_info ≡ s.runtime_info
  pub runtime_key : t.runtime_key ≡ s.runtime_key
  pub label : (s.label == [] || t.label == s.label) ≡ true
  pub email : (s.email == [] || t.email == s.email) ≡ true
  pub user_type : (s.user_type == [] || not (t.user_type == [])) ≡ true

module _ (json : Json) (host : Host) (fetch : Credential → Option Quota)
    (meanwhile : Files → Files) where
  -- The write of a file that was read, under its name: it holds a credential that is kept but for its
  -- class and its names, with the keys of the old file that are not the plugin's, or alone where the two
  -- documents cannot be merged.
  pub record IsSave (index : Text) (files after : Files) : Type 0 where
    pub old : File
    pub read : host.get index files ≡ found old
    pub before : StorageJson
    pub stored : json.storage old.json ≡ some before
    pub next : StorageJson
    pub same : IsEnriched before next
    pub fresh : Text
    pub written : json.write_storage next ≡ some fresh
    pub output : File
    pub name : output.name ≡ old.name
    pub content :
        (merge_foreign_auth_metadata json old.json fresh ≡ some output.json)
        ⊎ ((merge_foreign_auth_metadata json old.json fresh ≡ none) × (output.json ≡ fresh))
    pub save : host.save output (meanwhile files) ≡ some after

  -- Nothing is written, or that.
  abbrev pub IsAfter : Text → Files → Files → Type 0
  IsAfter index files after =
      (after ≡ files) ⊎ ((after ≡ meanwhile files) ⊎ IsSave index files after)
