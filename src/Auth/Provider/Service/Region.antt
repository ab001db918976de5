-- ===== src/Auth/Provider/Service/Region.antt =====
-- An account of auth_provider.go stays in the region that it was signed in to, and when the host is
-- asked to refresh it.
use qoder_cpa.Prelude.{
  ℕ, Bool, true, false, [], Option, none, some, Text, text_eq, if◌then◌else◌, ℤ, pos, int_eq, ◌==◌,
  ◌≡◌, ◌⊎◌, inl, inr, refl, arith, subst, ap, ◌∙◌,
}
use qoder_cpa.Auth.{Credential, Result, ok, err, ◌>>=◌, Reply, cosy_cn, cosy_api2}
use qoder_cpa.Auth.Login.{Status, pending, success, error, World, Standard, store_get}
use qoder_cpa.Auth.Login.Poll.{PollStatus, Poll, poll_login}
use qoder_cpa.Auth.Login.Poll as LoginPoll
use qoder_cpa.Auth.Refresh.{RefreshRequest, RefreshResponse, refresh, alone, rotated}
use qoder_cpa.Auth.Refresh as TokenRefresh
use qoder_cpa.Auth.Refresh.Laws.{IsRotated, refresh-IsRotated}
use qoder_cpa.Auth.Provider.{Codec, AuthData, auth_data, parse_stored_credential}
use qoder_cpa.Auth.Provider.Service.{
  Service, region_is_cn, region_config, Profile, RuntimeFields, with_profile, regional,
  with_runtime, Clients, completed, signed, finished, on_status, polled, poll, refresh_url,
  refresh_request, RefreshAnswer, refresh_stored,
}

-- The profile that a region gives.
abbrev pub region_profile : Bool → Text
region_profile cn = if cn then cosy_cn else cosy_api2

module _ (clients : Clients) (cn : Bool) (cred : Credential) where
  derived_profile :
      (c d : Credential) (m : Result RuntimeFields)
      → (m >>= λ r. ok (with_runtime (regional cn c) r)) ≡ ok d
      → d.profile ≡ region_profile cn
  derived_profile c d (err e) h = absurd (ground arith)
  derived_profile c d (ok r) h =
      let same : with_runtime (regional cn c) r ≡ d = ground arith in
      subst (λ (x : Credential). x.profile ≡ region_profile cn) same refl

  fetched_profile :
      (d : Credential) (m : Result Credential)
      → (m >>= λ c. clients.derive (regional cn c) >>= λ r. ok (with_runtime (regional cn c) r))
        ≡ ok d
      → d.profile ≡ region_profile cn
  fetched_profile d (err e) h = absurd (ground arith)
  fetched_profile d (ok c) h = derived_profile c d (clients.derive (regional cn c)) h

  controlled_profile :
      (d : Credential) (m : Result (Credential → Result Profile))
      → (m >>= λ fetch. with_profile (fetch cred) cred >>= λ c.
          clients.derive (regional cn c) >>= λ r. ok (with_runtime (regional cn c) r))
        ≡ ok d
      → d.profile ≡ region_profile cn
  controlled_profile d (err e) h = absurd (ground arith)
  controlled_profile d (ok fetch) h = fetched_profile d (with_profile (fetch cred) cred) h

  completed_profile :
      (d : Credential) → completed clients cn cred ≡ ok d → d.profile ≡ region_profile cn
  unfolding completed
  completed_profile d h = controlled_profile d (clients.control cn) h

module _ (sha256 : Text → Text) (codec : Codec) (clients : Clients) (cn : Bool) (now : ℤ)
    (d : AuthData) where
  -- The credential that was stored.
  record Signed : Type 0 where
    pub cred : Credential
    pub profile : cred.profile ≡ region_profile cn
    pub stored : auth_data sha256 codec now cred [] ≡ ok d

  stored-Signed :
      (c : Credential) (m : Result AuthData)
      → c.profile ≡ region_profile cn
      → auth_data sha256 codec now c [] ≡ m
      → (m >>= λ d. ok (signed d)) ≡ ok (signed d)
      → Signed
  stored-Signed c (err e) p at h = absurd (ground arith)
  stored-Signed c (ok b) p at h =
      let same : b ≡ d = ground arith in record { cred = c; profile = p; stored = at ∙ ap ok same }

  completed-Signed :
      (m : Result Credential)
      → ((c : Credential) → m ≡ ok c → c.profile ≡ region_profile cn)
      → (m >>= λ c. auth_data sha256 codec now c [] >>= λ d. ok (signed d)) ≡ ok (signed d)
      → Signed
  completed-Signed (err e) p h = absurd (ground arith)
  completed-Signed (ok c) p h = stored-Signed c (auth_data sha256 codec now c []) (p c refl) refl h

  finished-Signed :
      (o : Option Credential) → finished sha256 codec clients cn now o ≡ ok (signed d) → Signed
  finished-Signed none h = absurd (ground arith)
  finished-Signed (some cred) h =
      completed-Signed (completed clients cn cred) (completed_profile clients cn cred) h

  on_status-Signed :
      (s : PollStatus) (t : Status)
      → on_status sha256 codec clients cn now s t ≡ ok (signed d)
      → Signed
  on_status-Signed s pending h = absurd (ground arith)
  on_status-Signed s success h = finished-Signed s.credential h
  on_status-Signed s error h = finished-Signed s.credential h

  polled-Signed :
      (at : Option ℕ) (x : World × Result PollStatus)
      → (polled sha256 codec clients cn now at x).1 ≡ ok (signed d)
      → Signed
  polled-Signed at (w, err e) h = absurd (ground arith)
  polled-Signed at (w, ok s) h = on_status-Signed s s.status h

requested :
    (s : Service) (send : Text → Text → Reply) (cn : Bool) (cred : Credential)
    → cred.profile ≡ region_profile cn
    → (refresh_request s send cred).token_url ≡ refresh_url (region_config s cn)
unfolding refresh_request
requested s send true cred h = rw (refresh_request, h) refl
requested s send false cred h = rw (refresh_request, h) refl

-- A login in a region stores a credential that is refreshed at that region's host, so that its refresh
-- token never goes to the other one.
pub poll_region :
    (sha256 : Text → Text) (codec : Codec) (s : Service) (std : Standard) (json : LoginPoll.Decoder)
    (clients : Clients) (region : Text) (p : Poll) (w : World) (d : AuthData)
    (send : Text → Text → Reply)
    → (poll sha256 codec s std json clients region p w).1 ≡ ok (signed d)
    → (cred : Credential) × (auth_data sha256 codec p.later cred [] ≡ ok d)
      × ((refresh_request s send cred).token_url
          ≡ refresh_url (region_config s (region_is_cn region)))
unfolding poll
poll_region sha256 codec s std json clients region p w d send h =
    let cn = region_is_cn region in
    let got : Signed sha256 codec clients cn p.later d =
      polled-Signed sha256 codec clients cn p.later d (store_get p.id w)
        (poll_login std json (record p { config = region_config s cn }) w) h in
    (got.cred, got.stored, requested s send cn got.cred got.profile)

module _ (sha256 : Text → Text) (codec : Codec) (now : ℤ) (a : RefreshAnswer) where
  -- The credential that a refresh has stored.
  abbrev Stored : Type 0
  Stored =
      (cred : Credential) × (auth_data sha256 codec now cred [] ≡ ok a.auth)
      × (a.next_refresh_after ≡ cred.expires_at)

  due_now : {b c : ℤ} → (b ≡ c) ⊎ ((pos 0 == pos 0) ≡ false) → b ≡ c
  due_now (inl due) = due
  due_now (inr late) = absurd (ground arith)

  encoded-Stored :
      (r : RefreshResponse) (m : Result AuthData)
      → r.next_refresh_after ≡ r.credential.expires_at
      → auth_data sha256 codec now r.credential [] ≡ m
      → (m >>= λ d. ok (record { auth = d; next_refresh_after = r.next_refresh_after })) ≡ ok a
      → Stored
  encoded-Stored r (err e) due at h = absurd (ground arith)
  encoded-Stored r (ok d) due at h =
      let same : d ≡ a.auth = ground arith in (r.credential, at ∙ ap ok same, ground arith)

  refreshed-Stored :
      (m : Result RefreshResponse)
      → ((r : RefreshResponse) → m ≡ ok r → r.next_refresh_after ≡ r.credential.expires_at)
      → (m >>= λ r. auth_data sha256 codec now r.credential [] >>= λ d.
          ok (record { auth = d; next_refresh_after = r.next_refresh_after }))
        ≡ ok a
      → Stored
  refreshed-Stored (err e) due h = absurd (ground arith)
  refreshed-Stored (ok r) due h =
      encoded-Stored r (auth_data sha256 codec now r.credential []) (due r refl) refl h

  parsed-Stored :
      (s : Service) (json : TokenRefresh.Decoder) (send : Text → Text → Reply)
      (m : Result Credential)
      → (m >>= λ cred. refresh sha256 alone json now (refresh_request s send cred) >>= λ r.
          auth_data sha256 codec now r.credential [] >>= λ d.
          ok (record { auth = d; next_refresh_after = r.next_refresh_after }))
        ≡ ok a
      → Stored
  unfolding refresh_request
  parsed-Stored s json send (err e) h = absurd (ground arith)
  parsed-Stored s json send (ok cred) h =
      refreshed-Stored (refresh sha256 alone json now (refresh_request s send cred))
        (λ r e.
          due_now
            (IsRotated.due (refresh-IsRotated sha256 json now (refresh_request s send cred) r e)))
        h

-- A refresh that succeeds asks the host to refresh again at the very instant at which the new access
-- token expires, with none of the lead that the stored data keeps; no other caller refreshes the
-- account.
pub refresh_stored_no_lead :
    (sha256 : Text → Text) (codec : Codec) (s : Service) (json : TokenRefresh.Decoder) (now : ℤ)
    (send : Text → Text → Reply) (raw : Text) (a : RefreshAnswer)
    → refresh_stored sha256 codec s alone json now send raw ≡ ok a
    → (cred : Credential) × (auth_data sha256 codec now cred [] ≡ ok a.auth)
      × (a.next_refresh_after ≡ cred.expires_at)
unfolding refresh_stored
refresh_stored_no_lead sha256 codec s json now send raw a h =
    parsed-Stored sha256 codec now a s json send (parse_stored_credential codec raw) h
