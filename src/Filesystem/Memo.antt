-- ===== src/Filesystem/Memo.antt =====
-- crates/filesystem/src/cache/memo.rs: the read-through cache, over any eviction policy. Keys are
-- numbers, and the map is an association list.
pub mod Within
pub mod LruBacked
mod Examples
use strata_db.Prelude.{
  ℕ, zero, suc, ◌+◌, ◌-◌, List, [], ◌∷◌, Option, none, some, Bool, true, false, length, ltb, Result,
  ok, err,
}
use strata_db.Prelude.Maps.{lookup, insert, erase}

-- The trait `EvictionPolicy` of policies.rs.
pub record EvictionPolicy (P : Type 0) : Type 0 where
  pub record_access : ℕ → P → P
  pub evict_candidate : (ℕ → Bool) → P → Option ℕ
  pub remove : ℕ → P → P

pub data Budget : Type 0 where
  unlimited : Budget
  entries : ℕ → Budget
  bytes : ℕ → Budget

pub record Cache (V P : Type 0) : Type 0 where
  pub entries : List (ℕ × V)
  pub policy : P
  pub bytes : ℕ
  pub budget : Budget

module _ {V P : Type 0} (pol : EvictionPolicy P) (weight : V → ℕ) where
  unfoldable pub new : Budget → P → Cache V P
  new budget policy = record { entries = []; policy = policy; bytes = 0; budget = budget }

  unfoldable pub over : Budget → ℕ → ℕ → Bool
  over Budget.unlimited len used = false
  over (Budget.entries max) len used = ltb max len
  over (Budget.bytes max) len used = ltb max used

  -- `over_budget`
  unfoldable pub over_budget : Cache V P → Bool
  unfolding over
  over_budget c = over c.budget (length c.entries) c.bytes

  -- A round of the loop of `evict_to_budget`, for the key that the policy gives up.
  unfoldable pub evict_key : ℕ → Cache V P → Cache V P
  evict_key key c = elim (lookup key c.entries) [
    | none ↦ record c { policy = pol.remove key c.policy }
    | some v ↦ record c {
      entries = erase key c.entries;
      bytes = c.bytes - weight v;
      policy = pol.remove key c.policy;
    }
  ]

  -- `evict_to_budget`, in at most `fuel` rounds.
  unfoldable pub evict_to_budget : ℕ → Cache V P → Cache V P
  unfolding over_budget evict_key
  evict_to_budget zero c = c
  evict_to_budget (suc fuel) c = elim (over_budget c) [
    | false ↦ c
    | true ↦ elim (pol.evict_candidate (λ id. true) c.policy) [
      | none ↦ c
      | some key ↦ evict_to_budget fuel (evict_key key c)
    ]
  ]

  -- The handle is stored and its access recorded.
  unfoldable pub store : ℕ → V → Cache V P → Cache V P
  store key v c = record c {
    entries = insert key v c.entries;
    policy = pol.record_access key c.policy;
    bytes = c.bytes + weight v;
  }

  -- `get_or_load`, where `load` is what the loader would answer.
  unfoldable pub get_or_load :
      {E : Type 0} → ℕ → ℕ → Result E V → Cache V P → Result E V × Cache V P
  unfolding store evict_to_budget
  get_or_load fuel key load c = elim (lookup key c.entries) [
    | some v ↦ (ok v, record c { policy = pol.record_access key c.policy })
    | none ↦ elim load [ err e ↦ (err e, c) | ok v ↦ (ok v, evict_to_budget fuel (store key v c)) ]
  ]

  -- `get`
  unfoldable pub get : ℕ → Cache V P → Option V × Cache V P
  get key c = elim (lookup key c.entries) [
    | some v ↦ (some v, record c { policy = pol.record_access key c.policy })
    | none ↦ (none, c)
  ]

  -- `clear`: the policy is left as it was.
  unfoldable pub clear : Cache V P → Cache V P
  clear c = record c { entries = []; bytes = 0 }
