-- ===== src/Transport/Choice.antt =====
-- Which adapter Select of internal/qodertransport/transport.go gives.
use qoder_cpa.Prelude.{
  List, [], ◌∷◌, Option, none, some, Text, text_eq, ◌==◌, text_beq_iff, ◌≡◌, refl, arith, lookup,
  Bool-cases, inl, inr, subst, sym, eq→path, true, false,
}
use qoder_cpa.Transport.{
  profile_cosy_api2, profile_cosy_api3, profile_bearer_openai, profile_cosy_cn, Resolved, ok,
  config_error, parse_transport_profile, resolve_profile, Selector, adapter_of, select,
}

flipped : (raw p : Text) → (raw == p) ≡ false → (p == raw) ≡ false
flipped raw p other = ground (arith, text_beq_iff raw p, text_beq_iff p raw)

module _ {ℓ} {A : Type ℓ} where
  -- The adapter of each profile, the empty text standing for the default.
  abbrev pub table : Selector A → List (Text × A)
  table s =
      ([], s.cosy2)
      ∷ (profile_cosy_api2, s.cosy2)
      ∷ (profile_cosy_api3, s.cosy3)
      ∷ (profile_bearer_openai, s.bearer)
      ∷ (profile_cosy_cn, s.cn)
      ∷ []

  abbrev pub found : Text → Option A → Resolved A
  found raw none = config_error raw
  found raw (some a) = ok a

  Chooses : Selector A → Text → Type ℓ
  Chooses s raw = select s raw ≡ found raw (lookup raw (table s))

  here : (s : Selector A) (raw p : Text) → Chooses s p → (raw == p) ≡ true → Chooses s raw
  here s raw p chooses same = subst (Chooses s) (sym (eq→path raw p same)) chooses

  -- Select gives the adapter of the table of profiles, and a ConfigError with the value for any other
  -- text; there is no other adapter that it falls back to.
  pub select-lookup :
      (s : Selector A) (raw : Text) → select s raw ≡ found raw (lookup raw (table s))
  unfolding Chooses select resolve_profile parse_transport_profile adapter_of lookup
  select-lookup s raw = elim (Bool-cases (raw == [])) [
    | inl e ↦ here s raw [] refl e
    | inr none_0 ↦ elim (Bool-cases (raw == profile_cosy_api2)) [
      | inl e ↦ here s raw profile_cosy_api2 refl e
      | inr none_1 ↦ elim (Bool-cases (raw == profile_cosy_api3)) [
        | inl e ↦ here s raw profile_cosy_api3 refl e
        | inr none_2 ↦ elim (Bool-cases (raw == profile_bearer_openai)) [
          | inl e ↦ here s raw profile_bearer_openai refl e
          | inr none_3 ↦ elim (Bool-cases (raw == profile_cosy_cn)) [
            | inl e ↦ here s raw profile_cosy_cn refl e
            | inr none_4 ↦
                rw
                  (
                    select,
                    resolve_profile,
                    parse_transport_profile,
                    none_0,
                    none_1,
                    none_2,
                    none_3,
                    none_4,
                    lookup,
                    flipped raw [] none_0,
                    flipped raw profile_cosy_api2 none_1,
                    flipped raw profile_cosy_api3 none_2,
                    flipped raw profile_bearer_openai none_3,
                    flipped raw profile_cosy_cn none_4,
                  )
                  refl
          ]
        ]
      ]
    ]
  ]
