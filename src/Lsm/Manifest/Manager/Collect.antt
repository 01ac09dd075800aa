-- ===== src/Lsm/Manifest/Manager/Collect.antt =====
-- Garbage collection deletes neither what the version refers to nor what a running operation writes,
-- and so neither the file of a flush that stopped in front of its commit.
use mathlib.Core.Path.{subst}
use strata_db.Prelude.{
  ℕ, ◌<◌, ◌≤◌, ◌≡◌, refl, inl, inr, List, [], ◌∷◌, true, false, ltb, not, ◌&&◌, ◌==◌, ==_iff, arith,
  All, Bool-cases,
}
use strata_db.Lsm.Manifest.{Version, live_files}
use strata_db.Lsm.Manifest.Manager.{member, garbage_collect}

-- What may be deleted: below the watermark, and in no live run.
abbrev pub IsOrphan : Version → ℕ → Type 0
IsOrphan v id = (id < v.next_sst_id) × (member id (live_files v) ≡ false)

garbage_collect-IsOrphan : (v : Version) (ids : List ℕ) → All (IsOrphan v) (garbage_collect v ids).0
unfolding garbage_collect
garbage_collect-IsOrphan v [] = tt
garbage_collect-IsOrphan v (f ∷ ids) =
    let gone = garbage_collect-IsOrphan v ids in
    elim (Bool-cases (ltb f v.next_sst_id && not (member f (live_files v)))) [
      | inl orphan ↦ rw orphan ((ground arith, ground arith), gone)
      | inr live ↦ rw live gone
    ]

not_member :
    (v : Version) (id : ℕ) (l : List ℕ) → ¬ IsOrphan v id → All (IsOrphan v) l → member id l ≡ false
not_member v id [] other h = refl
not_member v id (f ∷ l) other h = elim (Bool-cases (f == id)) [
  | inl same ↦ absurd (other (subst (IsOrphan v) ((==_iff f id).0 same) h.0))
  | inr apart ↦ rw apart (not_member v id l other h.1)
]

-- A table that a live run refers to is not deleted.
pub live_stays :
    (v : Version) (id : ℕ) (ids : List ℕ)
    → member id (live_files v) ≡ true
    → member id (garbage_collect v ids).0 ≡ false
live_stays v id ids live =
    not_member v id (garbage_collect v ids).0 (λ o. ground (arith, live, o.1))
      (garbage_collect-IsOrphan v ids)

-- Nor is one at the next id or above.
pub above_stays :
    (v : Version) (id : ℕ) (ids : List ℕ)
    → v.next_sst_id ≤ id
    → member id (garbage_collect v ids).0 ≡ false
above_stays v id ids above =
    not_member v id (garbage_collect v ids).0 (λ o. absurd (omega (arith, above, o.0)))
      (garbage_collect-IsOrphan v ids)
