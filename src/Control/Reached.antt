-- ===== src/Control/Reached.antt =====
-- Which hosts the client of internal/qodercontrol/control.go asks, and what it takes for an answer.
use qoder_cpa.Prelude.{
  ap₂, List, [], ◌∷◌, ◌++◌, ◌≢◌, ◌⊎◌, has_prefix, nat_beq_iff, text_beq_iff, eq→path, codes, ◌==◌,
  text_eq, ℕ, ◌+◌, ◌≤◌, ◌<◌, true, ◌||◌, ◌++◌, Option, none, some, Text, text_eq, ◌==◌, ltb, leb,
  codes, length, take, ◌≡◌, refl, sym, ap, ◌∙◌, arith, inl, inr, Bool-cases, Option-cases,
  length-take, subst, zero, suc, [], ◌∷◌,
}
use mathlib.Core.List.{reverse, reverse-append, reverse-reverse}
use qoder_cpa.VerifyHost.{has_suffix, is_loopback}
use qoder_cpa.Auth.Login.{trim_right_slash}
use qoder_cpa.Control.{
  Config, got, BaseUrl, host_in_allowlist, base_error, new_client, Request, Reply, replied, unmade,
  unreached, broken, on_reply, do_request, request_of, with_defaults, unless_error,
  validate_base_url,
}

-- A listed host, or a host with a listed one behind a dot.
abbrev pub IsListed : Text → List Text → Type 0
IsListed host [] = ⊥
IsListed host (h ∷ allowed) =
    (host ≡ h) ⊎ (((sub : Text) × (host ≡ sub ++ (codes "." ++ h))) ⊎ IsListed host allowed)

has_prefix_rest :
    (s prefix : Text) → has_prefix s prefix ≡ true → (rest : Text) × (s ≡ prefix ++ rest)
has_prefix_rest s [] h = (s, refl)
has_prefix_rest [] (p ∷ prefix) h = cc
has_prefix_rest (c ∷ s) (p ∷ prefix) h =
    let (rest, same) = has_prefix_rest s prefix (ground arith) in
    let first : c ≡ p = ground (arith, nat_beq_iff c p) in
    (rest, ap₂ (λ (a : ℕ) (t : Text). a ∷ t) first same)

has_suffix_rest :
    (s suffix : Text) → has_suffix s suffix ≡ true → (sub : Text) × (s ≡ sub ++ suffix)
unfolding has_suffix
has_suffix_rest s suffix h =
    let (rest, same) = has_prefix_rest (reverse s) (reverse suffix) h in
    (
      reverse rest,
      sym (reverse-reverse s)
          ∙ ap reverse same
          ∙ reverse-append (reverse suffix) rest
          ∙ ap (λ (t : Text). reverse rest ++ t) (reverse-reverse suffix),
    )

host_in_allowlist-IsListed :
    (host : Text) (allowed : List Text)
    → host_in_allowlist host allowed ≡ true
    → IsListed host allowed
unfolding host_in_allowlist
host_in_allowlist-IsListed host [] h = cc
host_in_allowlist-IsListed host (a ∷ allowed) h = elim (Bool-cases (host == a)) [
  | inl same ↦ inl (eq→path host a same)
  | inr other ↦ elim (Bool-cases (has_suffix host (codes "." ++ a))) [
    | inl below ↦ inr (inl (has_suffix_rest host (codes "." ++ a) below))
    | inr out ↦ inr (inr (host_in_allowlist-IsListed host allowed (ground arith)))
  ]
]

-- The three names of the loopback host.
abbrev pub IsLoopback : Text → Type 0
IsLoopback host = (host ≡ codes "127.0.0.1") ⊎ ((host ≡ codes "::1") ⊎ (host ≡ codes "localhost"))

loopback : (host : Text) → is_loopback host ≡ true → IsLoopback host
unfolding is_loopback
loopback host h = elim (Bool-cases (host == codes "127.0.0.1")) [
  | inl four ↦ inl (eq→path host (codes "127.0.0.1") four)
  | inr other ↦ elim (Bool-cases (host == codes "::1")) [
    | inl six ↦ inr (inl (eq→path host (codes "::1") six))
    | inr name ↦ inr (inr (eq→path host (codes "localhost") (ground arith)))
  ]
]

-- The base of a client: loopback, or reached over https at a host that is listed or below one that is.
pub record IsSafe (cfg : Config) (u : BaseUrl) : Type 0 where
  pub named : u.hostname ≢ []
  pub over_tls : (u.scheme ≡ codes "https") ⊎ ((cfg.allow_insecure ≡ true) × IsLoopback u.hostname)
  pub listed : IsLoopback u.hostname ⊎ IsListed u.hostname cfg.allowed_hosts
  pub plain : (u.raw_query ≡ []) × (u.fragment ≡ [])

secure :
    (cfg : Config) (u : BaseUrl)
    → base_error cfg u ≡ none
    → (u.scheme ≡ codes "https") ⊎ ((cfg.allow_insecure ≡ true) × IsLoopback u.hostname)
unfolding base_error
secure cfg u h = elim (Bool-cases (u.scheme == codes "https")) [
  | inl tls ↦ inl (eq→path u.scheme (codes "https") tls)
  | inr bare ↦ inr (ground arith, loopback u.hostname (ground arith))
]

base_error-IsSafe : (cfg : Config) (u : BaseUrl) → base_error cfg u ≡ none → IsSafe cfg u
unfolding base_error
base_error-IsSafe cfg u h = record {
  named = λ e. ground (arith, text_beq_iff u.hostname []);
  over_tls = secure cfg u h;
  listed = elim (Bool-cases (is_loopback u.hostname)) [
    | inl near ↦ inl (loopback u.hostname near)
    | inr far ↦ inr (host_in_allowlist-IsListed u.hostname cfg.allowed_hosts (ground arith))
  ];
  plain = (ground (arith, text_beq_iff u.raw_query []), ground (arith, text_beq_iff u.fragment []));
}

-- What is there of the base of a configuration.
abbrev IsBase : (Text → Option BaseUrl) → Config → Type 0
IsBase parse cfg = (u : BaseUrl) × (parse cfg.base_url ≡ some u) × IsSafe cfg u

checked :
    (cfg made : Config) (o : Option BaseUrl)
    → unless_error (validate_base_url cfg o) cfg ≡ got made
    → (cfg ≡ made) × ((u : BaseUrl) × (o ≡ some u) × IsSafe cfg u)
checked cfg made none h = cc
checked cfg made (some u) h = elim (Option-cases (base_error cfg u)) [
  | inl good ↦ (cc (rw good at h), (u, refl, base_error-IsSafe cfg u good))
  | inr (e, bad) ↦ cc
]

-- A client is made only where its base is parsed, names a host, has no query and no fragment, is
-- reached over https or, where insecure bases are allowed, is loopback, and its host is loopback, or
-- listed, or a listed host behind a dot.
pub new_client-IsSafe :
    (parse : Text → Option BaseUrl) (given cfg : Config)
    → new_client parse given ≡ got cfg
    → IsBase parse cfg
unfolding new_client
new_client-IsSafe parse given cfg h =
    let (same, base) = checked (with_defaults given) cfg (parse (with_defaults given).base_url) h in
    subst (IsBase parse) same base

take_all : (k : ℕ) (s : Text) → length s ≤ k → take k s ≡ s
take_all zero [] h = refl
take_all zero (c ∷ s) h = absurd (omega arith)
take_all (suc k) [] h = refl
take_all (suc k) (c ∷ s) h = ap (◌∷◌ c) (take_all k s (omega arith))

-- An answer of a 2xx status in full, within a limit.
abbrev IsWithin : ℕ → Text → Reply → Type 0
IsWithin limit body reply =
    (status : ℕ) × (reply ≡ replied status body)
    × (length body ≤ limit)
    × (200 ≤ status)
    × (status < 300)

on_reply-IsWithin :
    (limit : ℕ) (endpoint body : Text) (reply : Reply)
    → on_reply limit endpoint reply ≡ got body
    → IsWithin limit body reply
unfolding on_reply
on_reply-IsWithin limit endpoint body unmade h = cc
on_reply-IsWithin limit endpoint body (unreached none) h = cc
on_reply-IsWithin limit endpoint body (unreached (some e)) h = cc
on_reply-IsWithin limit endpoint body broken h = cc
on_reply-IsWithin limit endpoint body (replied status sent) h =
    let read = take (limit + 1) sent in
    elim (Bool-cases (ltb limit (length read))) [
      | inl long ↦ cc
      | inr short ↦ elim (Bool-cases (ltb status 200 || leb 300 status)) [
        | inl bad ↦ cc
        | inr good ↦
            let all : read ≡ sent =
              take_all (limit + 1) sent (ground (arith, length-take (limit + 1) sent)) in
            let same : sent ≡ body = sym all ∙ cc (rw (short, good) at h) in
            (
              status,
              ap (replied status) same,
              rw (← same, ← all) (ground arith),
              ground arith,
              ground arith,
            )
      ]
    ]

-- What is taken for an answer was sent with a 2xx status, in full, within the limit.
pub do_request_within :
    (http : Request → Reply) (cfg : Config) (path token body : Text)
    → do_request http cfg path token ≡ got body
    → (status : ℕ) × (http (request_of (trim_right_slash cfg.base_url ++ path) token [])
        ≡ replied status body)
      × (length body ≤ cfg.body_limit)
      × (200 ≤ status)
      × (status < 300)
unfolding do_request
do_request_within http cfg path token body h =
    on_reply-IsWithin cfg.body_limit (trim_right_slash cfg.base_url ++ path) body
      (http (request_of (trim_right_slash cfg.base_url ++ path) token [])) h
