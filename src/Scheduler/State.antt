-- ===== src/Scheduler/State.antt =====
-- schedulerState of scheduler_state.go. Instants and durations are nanoseconds; the clock is an
-- argument, and so is the arithmetic of float64.
use qoder_cpa.Prelude.{
  ℕ, Bool, false, not, List, [], ◌++◌, Option, none, some, Text, text_eq, codes, if◌then◌else◌,
  lookup, insert, ℤ, pos, plus, ltb_ℤ,
}
use qoder_cpa.Lru
use qoder_cpa.Lru.{LruMap}

-- What the scheduler uses of float64: 0, 0.1, `+`, `-`, `*`, math.Max, `<=` and `==`.
pub record Float64 : Type 1 where
  pub F : Type 0
  pub zero_f : F
  pub epsilon : F
  pub add : F → F → F
  pub sub : F → F → F
  pub mul : F → F → F
  pub max_f : F → F → F
  pub le : F → F → Bool
  pub eq : F → F → Bool

abbrev pub quota_ttl : ℤ
quota_ttl = pos 300000000000

abbrev pub queue_cooldown_default : ℤ
queue_cooldown_default = pos 60000000000

abbrev pub sticky_max : ℕ
sticky_max = 1024

pub record Snapshot (F : Type 0) : Type 0 where
  pub remaining : F
  pub exhausted : Bool
  pub obtained : ℤ

pub record State (F : Type 0) : Type 0 where
  pub quota : List (Text × Snapshot F)
  pub cooldown : List (Text × ℤ)
  pub sticky : LruMap

unfoldable pub new_scheduler_state : (F : Type 0) → State F
new_scheduler_state F = record { quota = []; cooldown = []; sticky = Lru.new_lru_map sticky_max }

abbrev pub cooldown_key : Text → Text → Text
cooldown_key auth_id model = auth_id ++ codes ":" ++ model

module _ {F : Type 0} where
  unfoldable pub set_quota : ℤ → Text → F → Bool → State F → State F
  set_quota now auth_id remaining exhausted s =
      let snap : Snapshot F = record {
        remaining = remaining;
        exhausted = exhausted;
        obtained = now;
      } in
      record s { quota = insert auth_id snap s.quota }

  -- A snapshot older than the TTL is as good as none.
  unfoldable pub get_quota : ℤ → Text → State F → Option (Snapshot F)
  get_quota now auth_id s = elim (lookup auth_id s.quota) [
    | none ↦ none
    | some snap ↦ if ltb_ℤ (plus snap.obtained quota_ttl) now then none else some snap
  ]

  unfoldable pub is_exhausted : ℤ → Text → State F → Bool
  is_exhausted now auth_id s = elim (get_quota now auth_id s) [
    | none ↦ false
    | some snap ↦ snap.exhausted
  ]

  unfoldable pub set_cooldown : ℤ → Text → Text → ℤ → State F → State F
  set_cooldown now auth_id model ttl s = record s {
    cooldown = insert (cooldown_key auth_id model) (plus now ttl) s.cooldown;
  }

  unfoldable pub is_cooling_down : ℤ → Text → Text → State F → Bool
  is_cooling_down now auth_id model s = elim (lookup (cooldown_key auth_id model) s.cooldown) [
    | none ↦ false
    | some exp ↦ not (ltb_ℤ exp now)
  ]

  unfoldable pub sticky_get : Text → State F → Option Text × State F
  sticky_get key s = let (v, l) = Lru.get s.sticky key in (v, record s { sticky = l })

  unfoldable pub sticky_set : Text → Text → State F → State F
  sticky_set key auth_id s = record s { sticky = Lru.set s.sticky key auth_id }
