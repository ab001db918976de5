-- ===== src/Auth/Provider/Store.antt =====
-- What auth_provider.go stores of an account is read back.
use qoder_cpa.Prelude.{
  Option, none, some, Text, text_eq, ℤ, ◌≡◌, refl, arith, subst, ap, sym, ◌∙◌, int_eq,
}
use qoder_cpa.Auth.{Credential, Result, ok, err, ◌>>=◌, from_credential, to_credential}
use qoder_cpa.Auth.Provider.{
  Codec, AuthData, checked, described, auth_data, written, parse_stored_credential,
}

checked_same : (c d : Credential) → checked c ≡ ok d → c ≡ d
unfolding checked
checked_same c d h = ground arith

-- What auth_data has seen where it succeeds.
pub record IsStored (sha256 : Text → Text) (codec : Codec) (now : ℤ) (cred : Credential)
    (file_name : Text) (d : AuthData) : Type 0 where
  pub sound : checked cred ≡ ok cred
  pub encoded : codec.encode (from_credential cred) ≡ some d.storage_json
  pub shape : d ≡ described sha256 now cred file_name d.storage_json

module _ (sha256 : Text → Text) (codec : Codec) (now : ℤ) (cred : Credential)
    (file_name : Text) where
  written-IsStored :
      (o : Option Text) (d : AuthData)
      → checked cred ≡ ok cred
      → codec.encode (from_credential cred) ≡ o
      → (written o >>= λ raw. ok (described sha256 now cred file_name raw)) ≡ ok d
      → IsStored sha256 codec now cred file_name d
  unfolding described
  written-IsStored none d sound e h = absurd (ground arith)
  written-IsStored (some raw) d sound e h =
      let same : described sha256 now cred file_name raw ≡ d = ground arith in
      subst (IsStored sha256 codec now cred file_name) same
        (record { sound = sound; encoded = e; shape = refl })

  checked-IsStored :
      (m : Result Credential) (d : AuthData)
      → checked cred ≡ m
      → (m >>= λ c. written (codec.encode (from_credential c)) >>= λ raw.
          ok (described sha256 now c file_name raw))
        ≡ ok d
      → IsStored sha256 codec now cred file_name d
  checked-IsStored (err e) d at h = absurd (ground arith)
  checked-IsStored (ok c) d at h =
      let same : cred ≡ c = checked_same cred c at in
      written-IsStored (codec.encode (from_credential cred)) d (at ∙ ap ok (sym same)) refl
        (rw same h)

  pub auth_data-IsStored :
      (d : AuthData)
      → auth_data sha256 codec now cred file_name ≡ ok d
      → IsStored sha256 codec now cred file_name d
  unfolding auth_data
  auth_data-IsStored d h = checked-IsStored (checked cred) d refl h

parsed_stored :
    (codec : Codec) (cred : Credential) (raw : Text)
    → checked cred ≡ ok cred
    → codec.decode raw ≡ some (from_credential cred)
    → parse_stored_credential codec raw ≡ ok cred
unfolding parse_stored_credential from_credential to_credential
parsed_stored codec cred raw sound reads = rw (parse_stored_credential, reads) sound

-- What is stored of a credential is read back as that credential, if the document that was written
-- is decoded as it was encoded.
pub parse_stored_credential-auth_data :
    (sha256 : Text → Text) (codec : Codec) (now : ℤ) (cred : Credential) (file_name : Text)
    (d : AuthData)
    → auth_data sha256 codec now cred file_name ≡ ok d
    → codec.decode d.storage_json ≡ some (from_credential cred)
    → parse_stored_credential codec d.storage_json ≡ ok cred
parse_stored_credential-auth_data sha256 codec now cred file_name d h reads =
    parsed_stored codec cred d.storage_json
      (IsStored.sound (auth_data-IsStored sha256 codec now cred file_name d h)) reads
