-- ===== src/Auth/Refresh/Laws.antt =====
-- What a refresh of internal/qoderauth/refresh.go keeps of an account, and what its errors say.
use qoder_cpa.Prelude.{
  ℕ, ◌<◌, ◌≤◌, ◌+◌, nat_eq, length-take, true, false, [], Option, none, some, Text, text_eq, ◌==◌,
  ltb, length, mem, contains, ℤ, pos, int_eq, ◌≡◌, ◌≢◌, ◌⊎◌, refl, arith, inl, inr, Bool-cases,
  Option-cases, text_beq_iff, subst,
}
use qoder_cpa.Auth.{
  Credential, AuthError, refresh_error, upstream_status, Result, ok, err, ◌>>=◌, Reply, response,
  do_http_request, read_body, limited, is_2xx, max_response_body_bytes,
}
use qoder_cpa.Auth.Scrub.{scrub_secrets_gone, secrets}
use qoder_cpa.Auth.Refresh.{
  TokenRefreshResponse, Decoder, RefreshRequest, RefreshResponse, first_of, rotated, answered,
  do_refresh, sanitize_refresh_error, sanitized, refresh, alone, flight_key,
}

-- The account of `c` is that of `d`, but for the tokens, the time and the class.
pub record SameAccount (c d : Credential) : Type 0 where
  pub user_id : c.user_id ≡ d.user_id
  pub machine_id : c.machine_id ≡ d.machine_id
  pub email : c.email ≡ d.email
  pub organization_id : c.organization_id ≡ d.organization_id
  pub organization_tags : c.organization_tags ≡ d.organization_tags
  pub runtime_info : c.runtime_info ≡ d.runtime_info
  pub runtime_key : c.runtime_key ≡ d.runtime_key
  pub profile : c.profile ≡ d.profile

-- What a refresh promises of the credential that it gives.
pub record IsRotated (req : RefreshRequest) (r : RefreshResponse) : Type 0 where
  pub same : SameAccount r.credential req.cred
  pub access : r.credential.access_token ≢ []
  pub refresh_token : r.credential.refresh_token ≢ []
  pub user_type : r.credential.user_type ≡ []
  pub due : (r.next_refresh_after ≡ r.credential.expires_at) ⊎ ((req.ttl == pos 0) ≡ false)

due_rotated :
    (now : ℤ) (req : RefreshRequest) (t : TokenRefreshResponse)
    → ((rotated now req t).next_refresh_after ≡ (rotated now req t).credential.expires_at)
      ⊎ ((req.ttl == pos 0) ≡ false)
unfolding rotated
due_rotated now req t = elim (Bool-cases (req.ttl == pos 0)) [
  | inl unset ↦ inl (rw unset refl)
  | inr set ↦ inr set
]

rotated-IsRotated :
    (now : ℤ) (req : RefreshRequest) (t : TokenRefreshResponse)
    → (first_of t.token t.access_token == []) ≡ false
    → (req.cred.refresh_token == []) ≡ false
    → IsRotated req (rotated now req t)
unfolding rotated
rotated-IsRotated now req t has old = record {
  same = record {
    user_id = refl;
    machine_id = refl;
    email = refl;
    organization_id = refl;
    organization_tags = refl;
    runtime_info = refl;
    runtime_key = refl;
    profile = refl;
  };
  access = ground (arith, text_beq_iff (first_of t.token t.access_token) []);
  refresh_token =
      ground (arith, text_beq_iff t.refresh_token [], text_beq_iff req.cred.refresh_token []);
  user_type = refl;
  due = due_rotated now req t;
}

module _ (json : Decoder) (now : ℤ) (req : RefreshRequest)
    (old : (req.cred.refresh_token == []) ≡ false) where
  answered-IsRotated :
      (body : Text) (o : Option TokenRefreshResponse) (r : RefreshResponse)
      → answered json now req body o ≡ ok r
      → IsRotated req r
  answered-IsRotated body none r done = absurd (ground arith)
  answered-IsRotated body (some t) r done =
      elim (Bool-cases (first_of t.token t.access_token == [])) [
        | inl lacks ↦ absurd (ground arith)
        | inr has ↦ subst (IsRotated req) (ground arith) (rotated-IsRotated now req t has old)
      ]

  of_body-IsRotated :
      (m : Result Text) (r : RefreshResponse)
      → (m >>= λ body. answered json now req body (json.refreshed body)) ≡ ok r
      → IsRotated req r
  of_body-IsRotated (ok body) r done = answered-IsRotated body (json.refreshed body) r done
  of_body-IsRotated (err e) r done = absurd (ground arith)

  sanitized-IsRotated :
      (m : Result RefreshResponse) (r : RefreshResponse)
      → ((q : RefreshResponse) → m ≡ ok q → IsRotated req q)
      → sanitized req.cred m ≡ ok r
      → IsRotated req r
  unfolding sanitized
  sanitized-IsRotated (ok q) r each done = subst (IsRotated req) (ground arith) (each q refl)
  sanitized-IsRotated (err e) r each done = absurd (ground arith)

-- A refresh that succeeds keeps the account as it is and gives an access token and a refresh token
-- that are not empty; the class of the account is lost, and without an interval of its own the next
-- refresh is due when the access token expires. No other caller refreshes the account.
pub refresh-IsRotated :
    (sha256 : Text → Text) (json : Decoder) (now : ℤ) (req : RefreshRequest) (r : RefreshResponse)
    → refresh sha256 alone json now req ≡ ok r
    → IsRotated req r
unfolding refresh do_refresh
refresh-IsRotated sha256 json now req r done = elim (Option-cases req.client) [
  | inl nil ↦ absurd (ground arith)
  | inr (send, has) ↦ elim (Bool-cases (req.cred.refresh_token == [])) [
    | inl lacks ↦ absurd (ground arith)
    | inr old ↦
        sanitized-IsRotated json now req old (do_refresh json now send req) r
          (λ q e.
            of_body-IsRotated json now req old
              (do_http_request (send req.token_url req.cred.refresh_token)) q e)
          (ground arith)
  ]
]

module _ (cred : Credential) (secret reason : Text) (listed : mem secret (secrets cred) ≡ true)
    (long : 4 < length secret) (plain : mem b'*' secret ≡ false) where
  sanitize_refresh_error_clean :
      (e : AuthError)
      → sanitize_refresh_error e cred ≡ refresh_error reason
      → contains reason secret ≡ false
  unfolding sanitize_refresh_error
  sanitize_refresh_error_clean (refresh_error text) same =
      subst (λ (r : Text). contains r secret ≡ false) (ground arith)
        (scrub_secrets_gone text secret cred listed long plain)
  sanitize_refresh_error_clean e same = absurd (ground arith)

  sanitized_clean :
      (m : Result RefreshResponse)
      → sanitized cred m ≡ err (refresh_error reason)
      → contains reason secret ≡ false
  unfolding sanitized
  sanitized_clean (ok r) failed = absurd (ground arith)
  sanitized_clean (err e) failed = sanitize_refresh_error_clean e (ground arith)

-- The text of an error that asks for a new login holds none of the account's secrets that has more
-- than four bytes and no asterisk, whichever caller's refresh the error comes from; the account had
-- a refresh token.
pub refresh_error_clean :
    (sha256 : Text → Text) (fly : Text → Result RefreshResponse → Result RefreshResponse)
    (json : Decoder) (now : ℤ) (req : RefreshRequest) (secret reason : Text)
    → mem secret (secrets req.cred) ≡ true
    → 4 < length secret
    → mem b'*' secret ≡ false
    → (req.cred.refresh_token == []) ≡ false
    → refresh sha256 fly json now req ≡ err (refresh_error reason)
    → contains reason secret ≡ false
unfolding refresh
refresh_error_clean sha256 fly json now req secret reason listed long plain old failed =
    elim (Option-cases req.client) [
      | inl nil ↦ absurd (ground arith)
      | inr (send, has) ↦
          sanitized_clean req.cred secret reason listed long plain
            (fly (flight_key sha256 req.cred) (do_refresh json now send req)) (ground arith)
    ]

length-limited : (body : Text) → length (limited body) ≤ length body
unfolding limited
length-limited body = omega (arith, length-take (max_response_body_bytes + 1) body)

not_over : (a b : ℕ) → a ≤ b → ltb b a ≡ false
not_over a b h = ground arith

limited_fits :
    (body : Text)
    → length body ≤ max_response_body_bytes
    → ltb max_response_body_bytes (length (limited body)) ≡ false
limited_fits body fits =
    not_over (length (limited body)) max_response_body_bytes (omega (arith, length-limited body))

do_http_request_status :
    (status : ℕ) (body : Text)
    → is_2xx status ≡ false
    → length body ≤ max_response_body_bytes
    → do_http_request (response status body) ≡ err (upstream_status status)
unfolding do_http_request read_body
do_http_request_status status body bad fits = rw (do_http_request, limited_fits body fits, bad) refl

-- A response that is not 2xx never asks for a new login, whatever its body says: the error tells the
-- status only. The request is well formed, and no other caller refreshes the account.
pub refresh_status :
    (sha256 : Text → Text) (json : Decoder) (now : ℤ) (req : RefreshRequest)
    (send : Text → Text → Reply) (status : ℕ) (body : Text)
    → req.client ≡ some send
    → (req.token_url == []) ≡ false
    → (req.cred.refresh_token == []) ≡ false
    → (req.client_id == []) ≡ false
    → send req.token_url req.cred.refresh_token ≡ response status body
    → is_2xx status ≡ false
    → length body ≤ max_response_body_bytes
    → refresh sha256 alone json now req ≡ err (upstream_status status)
unfolding refresh do_refresh sanitized
refresh_status sha256 json now req send status body has url old id sent bad fits =
    rw (refresh, has, url, old, id, do_refresh, sent, do_http_request_status status body bad fits)
      refl
