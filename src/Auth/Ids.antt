-- ===== src/Auth/Ids.antt =====
-- What an auth identifier of internal/qoderauth/authid.go tells of its user and its region.
use qoder_cpa.Prelude.{
  ◌∷◌, ◌++◌, Text, text_eq, ◌==◌, codes, if◌then◌else◌, All, ◌≡◌, refl, sym, ap, ◌∙◌, inl, inr,
  Bool-cases, drop,
}
use qoder_cpa.Auth.{cosy_cn, new_auth_id, auth_id_for_profile}
use qoder_cpa.Auth.Hex.{IsByte, hex_encode, hex_decode, hex_decode-hex_encode}

-- What is hashed for a user of a profile.
abbrev pub seed : Text → Text → Text
seed user profile = if profile == cosy_cn then codes "cn" ++ 0 ∷ user else user

auth_id-seed :
    (sha256 : Text → Text) (user profile : Text)
    → auth_id_for_profile sha256 user profile
      ≡ codes "qoder-" ++ hex_encode (sha256 (seed user profile))
unfolding auth_id_for_profile new_auth_id
auth_id-seed sha256 user profile = elim (Bool-cases (profile == cosy_cn)) [
  | inl cn ↦ rw (auth_id_for_profile, cn) refl
  | inr intl ↦ rw (auth_id_for_profile, intl) refl
]

hex_of_id :
    (a b : Text)
    → All IsByte a
    → All IsByte b
    → codes "qoder-" ++ hex_encode a ≡ codes "qoder-" ++ hex_encode b
    → a ≡ b
hex_of_id a b ha hb same =
    sym (hex_decode-hex_encode a ha).0
    ∙ ap (λ (s : Text). hex_decode (drop 6 s)) same
    ∙ (hex_decode-hex_encode b hb).0

-- Two accounts have the same identifier only where the hash collides on what is hashed for them:
-- the user id, with a mark before it in the CN region; a digest is a list of bytes.
pub auth_id_for_profile_collision :
    (sha256 : Text → Text) (user profile other region : Text)
    → All IsByte (sha256 (seed user profile))
    → All IsByte (sha256 (seed other region))
    → auth_id_for_profile sha256 user profile ≡ auth_id_for_profile sha256 other region
    → sha256 (seed user profile) ≡ sha256 (seed other region)
auth_id_for_profile_collision sha256 user profile other region ha hb same =
    hex_of_id (sha256 (seed user profile)) (sha256 (seed other region)) ha hb
      (sym (auth_id-seed sha256 user profile) ∙ same ∙ auth_id-seed sha256 other region)
