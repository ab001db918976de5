-- ===== src/Cosy/Send/Hosts.antt =====
-- Where a request of internal/qodertransport/cosy/transport.go goes.
use qoder_cpa.Prelude.{
  true, ◌&&◌, ◌||◌, [], Option, none, some, Text, text_eq, ◌==◌, ℤ, ◌≡◌, ◌⊎◌, arith, inl, inr,
  Bool-cases, ap, sym,
}
use qoder_cpa.Dial.Loopback.{is_loopback_url}
use qoder_cpa.Cosy.Encoding.{encode_body}
use qoder_cpa.Cosy.Send.{
  endpoint_url, RuntimeFields, complete, Signer, Parts, with_url, with_payload,
  build_http_request_at, Transport, Config, made, new_transport, StreamRequest, sent,
}

-- What a transport is made with.
made_with :
    (cfg : Config) (t : Transport)
    → new_transport cfg ≡ made t
    → (t.endpoint ≡ cfg.endpoint)
      × (t.base_url ≡ cfg.base_url)
      × ((cfg.base_url == [] || (cfg.allow_test_endpoint && is_loopback_url cfg.base_url)) ≡ true)
unfolding new_transport
made_with cfg t h = ground arith

module _ (signer : Signer) (body id version : Text) (fields : RuntimeFields) (now : ℤ)
    (p : Parts) where
  payload_url :
      (o : Option Text) (url encoded : Text)
      → with_payload signer o url encoded fields version now ≡ some p
      → p.url ≡ url
  payload_url none url encoded h = absurd (ground arith)
  payload_url (some payload) url encoded h = ground arith

  with_url_url :
      (o : Option Text) (encoded : Text)
      → with_url signer o encoded fields id version now ≡ some p
      → o ≡ some p.url
  with_url_url none encoded h = absurd (ground arith)
  with_url_url (some url) encoded h =
      ap some (sym (payload_url (signer.payload id fields.encrypt_user_info version) url encoded h))

  built_url :
      (ep : Text)
      → build_http_request_at signer ep body fields id version now ≡ some p
      → endpoint_url ep ≡ some p.url
  unfolding build_http_request_at
  built_url ep h = elim (Bool-cases (complete fields)) [
    | inl full ↦ with_url_url (endpoint_url ep) (encode_body body) (ground arith)
    | inr part ↦ absurd (ground arith)
  ]

-- A request goes to the host of the endpoint that its transport was configured with, and to no other,
-- unless a test has allowed an address that counts as loopback.
pub sent_url :
    (cfg : Config) (t : Transport) (signer : Signer) (req : StreamRequest) (now : ℤ) (p : Parts)
    → new_transport cfg ≡ made t
    → build_http_request_at signer t.endpoint req.request_body req.runtime_fields req.request_id
        req.cosy_version now
      ≡ some p
    → (endpoint_url cfg.endpoint ≡ some (sent t p req).url)
      ⊎ ((cfg.allow_test_endpoint ≡ true) × (is_loopback_url cfg.base_url ≡ true))
sent_url cfg t signer req now p h b =
    let with_config = made_with cfg t h in
    let url : endpoint_url t.endpoint ≡ some p.url =
      built_url signer req.request_body req.request_id req.cosy_version req.runtime_fields now p
        t.endpoint b in
    elim (Bool-cases (cfg.base_url == [])) [
      | inl real ↦ inl (rw (with_config.1, real, ← with_config.0) url)
      | inr test ↦ inr (ground arith, ground arith)
    ]
