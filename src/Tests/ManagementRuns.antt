-- ===== src/Tests/ManagementRuns.antt =====
-- The writes to an account's file on concrete inputs.
use qoder_cpa.Prelude.{
  [], ◌∷◌, none, some, text_eq, codes, pos, trim_space, ◌≡◌, refl, lookup, insert,
}
use qoder_cpa.Auth.{StorageJson}
use qoder_cpa.Management.{
  Doc, Json, is_owned, merge_old, merge_foreign_auth_metadata, Files, Host, missing, found, Quota,
  file_to_save, enriched, changes, write_back, fine, refresh_quota,
}
use qoder_cpa.Management.Merge.{merged_value, lookup-merge_old}

program : Unit {0}
unfolding trim_space lookup insert is_owned merge_old merge_foreign_auth_metadata file_to_save
    enriched changes write_back refresh_quota
program = tt

abbrev old_doc : Doc
old_doc = (codes "priority", codes "5") ∷ (codes "email", codes "\"old\"") ∷ []

abbrev fresh_doc : Doc
fresh_doc = (codes "email", codes "\"new\"") ∷ []

lookup-merge_old_example :
    lookup (codes "priority") (merge_old old_doc fresh_doc)
    ≡ merged_value (codes "priority") old_doc fresh_doc
lookup-merge_old_example = lookup-merge_old (codes "priority") old_doc fresh_doc (refl, (refl, tt))

merged :
    merge_old old_doc fresh_doc
    ≡ (codes "email", codes "\"new\"") ∷ (codes "priority", codes "5") ∷ []
unfolding program
merged = refl

abbrev storage : StorageJson
storage = record {
  access_token = codes "a";
  refresh_token = codes "r";
  expires_at = pos 0;
  user_id = codes "u";
  user_type = [];
  machine_id = [];
  email = [];
  label = [];
  organization_id = [];
  organization_tags = [];
  runtime_info = [];
  runtime_key = [];
  profile = [];
}

-- A codec that writes every credential as its label.
abbrev json : Json
json = record {
  doc = λ raw. none;
  write_doc = λ d. none;
  storage = λ raw. some storage;
  write_storage = λ s. some s.label;
  quota_request = λ raw. some (record { auth_index = raw });
  profile_request = λ raw. none;
}

-- A host whose files are found by their index and saved under their name.
abbrev host : Host
host = record {
  get = λ index files. elim (lookup index files) [ none ↦ missing | some f ↦ found f ];
  save = λ f files. some (insert f.name f files);
}

abbrev quota : Quota
quota = record {
  nickname = codes "Nick";
  email = [];
  mobile = codes "123";
  user_type = codes "personal";
}

abbrev files : Files
files = (codes "x", record { name = codes "x"; json = codes "{}" }) ∷ []

-- While the upstream is asked, the host writes new tokens into the file.
abbrev meanwhile : Files → Files
meanwhile fs = insert (codes "x") (record { name = codes "x"; json = codes "{new}" }) fs

overwritten :
    refresh_quota json host (λ c. some quota) meanwhile (codes "x") files
    ≡ (fine (codes "x"), (codes "x", record { name = codes "x"; json = codes "Nick" }) ∷ [])
unfolding program
overwritten = refl
