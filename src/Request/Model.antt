-- ===== src/Request/Model.antt =====
-- The model that a document of internal/qodertransport/chat_request.go names.
use qoder_cpa.Prelude.{
  true, false, ◌||◌, [], ◌++◌, Option, none, some, Text, text_eq, ◌==◌, has_prefix, trim_space, ◌≡◌,
  refl, arith, inl, inr, Bool-cases, subst,
}
use qoder_cpa.Request.{
  ResolvedModel, ChatPayload, Decoder, provider_prefix, prefixed, resolved, named, no_messages,
  checked, decoded, parse_chat_payload,
}

-- What a document that is accepted tells: a model, a message, and a public name of the provider.
pub record IsAccepted (p : ChatPayload) : Type 0 where
  pub model : (p.model == []) ≡ false
  pub message : no_messages p.messages ≡ false
  pub public_model : has_prefix p.public_model provider_prefix ≡ true

prefixed_lem : (m : Text) → has_prefix (prefixed m) provider_prefix ≡ true
prefixed_lem m = elim (Bool-cases (has_prefix m provider_prefix)) [
  | inl has ↦ rw has has
  | inr lacks ↦ rw lacks refl
]

resolved_public :
    (r : Option (Text → ResolvedModel)) (p : ChatPayload)
    → (resolved r p).public_model ≡ p.public_model
resolved_public none p = refl
resolved_public (some f) p = refl

checked-IsAccepted :
    (p q : ChatPayload)
    → has_prefix p.public_model provider_prefix ≡ true
    → checked p ≡ some q
    → IsAccepted q
checked-IsAccepted p q public h = elim (Bool-cases (p.model == [] || no_messages p.messages)) [
  | inl bad ↦ absurd (ground arith)
  | inr good ↦
      let same : p ≡ q = ground arith in
      subst IsAccepted same
        (record { model = ground arith; message = ground arith; public_model = public })
]

decoded-IsAccepted :
    (r : Option (Text → ResolvedModel)) (o : Option ChatPayload) (q : ChatPayload)
    → decoded r o ≡ some q
    → IsAccepted q
decoded-IsAccepted r none q h = absurd (ground arith)
decoded-IsAccepted r (some p) q h = elim (Bool-cases (trim_space p.model == [])) [
  | inl unnamed ↦ absurd (ground arith)
  | inr has ↦
      let n = named p (prefixed (trim_space p.model)) in
      checked-IsAccepted (resolved r n) q
        (rw (resolved_public r n) (prefixed_lem (trim_space p.model))) (ground arith)
]

-- A document that is accepted names a model that is not empty, with or without a catalog, has a
-- message, and its public name has the provider before it.
pub parse_chat_payload-IsAccepted :
    (json : Decoder) (r : Option (Text → ResolvedModel)) (raw : Text) (q : ChatPayload)
    → parse_chat_payload json r raw ≡ some q
    → IsAccepted q
unfolding parse_chat_payload
parse_chat_payload-IsAccepted json r raw q h = decoded-IsAccepted r (json.payload raw) q h

-- Two documents that differ in the provider before the model's name are the same request.
pub parse_chat_payload_prefix :
    (json : Decoder) (r : Option (Text → ResolvedModel)) (raw other : Text) (p : ChatPayload)
    (name spelled : Text)
    → json.payload raw ≡ some p
    → json.payload other ≡ some (record p { model = spelled })
    → trim_space p.model ≡ name
    → trim_space spelled ≡ provider_prefix ++ name
    → (name == []) ≡ false
    → has_prefix name provider_prefix ≡ false
    → parse_chat_payload json r other ≡ parse_chat_payload json r raw
unfolding parse_chat_payload
parse_chat_payload_prefix json r raw other p name spelled here there trimmed full given bare =
    rw (parse_chat_payload, here, there, trimmed, full, given, bare) refl
