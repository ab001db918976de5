-- ===== src/Auth/Login/Poll/Final.antt =====
-- A transaction of internal/qoderauth that has ended.
use qoder_cpa.Prelude.{Option, none, some, text_eq, ◌≡◌}
use qoder_cpa.Auth.{Credential}
use qoder_cpa.Auth.Login.{Transaction}
use qoder_cpa.Auth.Login.Poll.Reach.{login, Reach}

-- A credential whose tokens, expiry, user type and machine are kept, or none where there was none.
abbrev pub IsSameLogin : Option Credential → Option Credential → Type 0
IsSameLogin none none = Unit
IsSameLogin none (some d) = ⊥
IsSameLogin (some c) none = ⊥
IsSameLogin (some c) (some d) =
    (d.access_token ≡ c.access_token)
    × (d.refresh_token ≡ c.refresh_token)
    × (d.expires_at ≡ c.expires_at)
    × (d.user_type ≡ c.user_type)
    × (d.machine_id ≡ c.machine_id)

-- A transaction that is the same but for what completes its credential.
pub record IsKept (t t' : Transaction) : Type 0 where
  pub rest : t' ≡ record t { credential = t'.credential }
  pub login : IsSameLogin t.credential t'.credential

-- What is at an address now.
abbrev pub IsKeptAt : Transaction → Option Transaction → Type 0
IsKeptAt t o = (t' : Transaction) × (o ≡ some t') × IsKept t t'
