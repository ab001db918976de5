-- ===== src/VerifyHost.antt =====
-- validateVerifyHost of internal/qoderauth/store.go: which hosts a login page may have. url.Parse is a
-- parameter.
use qoder_cpa.Prelude.{
  Bool, true, false, not, ◌&&◌, ◌||◌, [], ◌∷◌, ◌++◌, Option, none, some, Text, text_eq, ◌==◌, codes,
  if◌then◌else◌, has_prefix, ◌≡◌, refl, arith, inl, inr, Bool-cases, sym, ◌∙◌, eq→path,
}
use mathlib.Core.List.{reverse, reverse-append}

pub record Url : Type 0 where
  pub scheme : Text
  pub hostname : Text

pub data Verdict : Type 0 where
  accepted : Verdict
  parse_error : Verdict
  empty_host : Verdict
  bad_scheme : Text → Verdict
  not_allowed : Text → Verdict

unfoldable pub is_loopback : Text → Bool
is_loopback host = host == codes "127.0.0.1" || host == codes "::1" || host == codes "localhost"

-- strings.HasSuffix.
unfoldable pub has_suffix : Text → Text → Bool
has_suffix s suffix = has_prefix (reverse s) (reverse suffix)

unfoldable pub in_allowlist : Text → Bool
in_allowlist host = has_suffix host (codes "qoder.com") || has_suffix host (codes "qoder.sh")

unfoldable pub judged : Url → Bool → Verdict
judged u allow_insecure =
    if u.hostname == []
    then empty_host
    else if not (u.scheme == codes "https") && (not allow_insecure || not (is_loopback u.hostname))
    then bad_scheme u.scheme
    else if not (is_loopback u.hostname) && not (in_allowlist u.hostname)
    then not_allowed u.hostname
    else accepted

unfoldable pub validate_verify_host : (Text → Option Url) → Text → Bool → Verdict
unfolding judged
validate_verify_host parse raw allow_insecure = elim (parse raw) [
  | none ↦ parse_error
  | some u ↦ judged u allow_insecure
]

judged_remote :
    (u : Url) (allow_insecure : Bool)
    → judged u allow_insecure ≡ accepted
    → is_loopback u.hostname ≡ false
    → (u.scheme ≡ codes "https") × (in_allowlist u.hostname ≡ true)
unfolding judged
judged_remote u allow_insecure passed remote = elim (Bool-cases (u.scheme == codes "https")) [
  | inl secure ↦ (eq→path u.scheme (codes "https") secure, ground arith)
  | inr plain ↦ absurd (ground arith)
]

-- A login page that is accepted on a host that is not loopback is reached over https, and its host
-- ends with one of the two listed names; insecure pages being allowed changes nothing of that.
pub validate_verify_host_remote :
    (parse : Text → Option Url) (raw : Text) (allow_insecure : Bool) (u : Url)
    → parse raw ≡ some u
    → validate_verify_host parse raw allow_insecure ≡ accepted
    → is_loopback u.hostname ≡ false
    → (u.scheme ≡ codes "https") × (in_allowlist u.hostname ≡ true)
unfolding validate_verify_host
validate_verify_host_remote parse raw allow_insecure u parsed passed remote =
    judged_remote u allow_insecure (sym (rw (validate_verify_host, parsed) refl) ∙ passed) remote

not_empty : (lead : Text) → ((lead ++ codes "qoder.com") == []) ≡ false
not_empty [] = refl
not_empty (c ∷ lead) = refl

in_allowlist_lookalike : (lead : Text) → in_allowlist (lead ++ codes "qoder.com") ≡ true
unfolding in_allowlist has_suffix
in_allowlist_lookalike lead = rw (reverse-append lead (codes "qoder.com")) refl

-- Any text before a listed name makes a host that is accepted over https: no dot is asked for.
pub judged_lookalike :
    (lead : Text)
    → judged (record { scheme = codes "https"; hostname = lead ++ codes "qoder.com" }) false
      ≡ accepted
unfolding judged
judged_lookalike lead = elim (Bool-cases (is_loopback (lead ++ codes "qoder.com"))) [
  | inl loopback ↦ rw (judged, not_empty lead, loopback) refl
  | inr remote ↦ rw (judged, not_empty lead, remote, in_allowlist_lookalike lead) refl
]
