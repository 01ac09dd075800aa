-- ===== src/Lsm/Table/Build/Packed.antt =====
-- What `build` leaves on disk: each block's bytes stand where its index entry says.
use mathlib.Core.Path.{subst}
use native.Mathlib.Nat.{mod-eq_of_lt}
use strata_db.Prelude.{
  take-drop-append, ℕ, zero, suc, ◌+◌, ◌-◌, ◌%◌, ◌^◌, ◌≤◌, ◌<◌, ◌≡◌, refl, sym, ap, ◌∙◌, inl, inr,
  List, [], ◌∷◌, ◌++◌, append_assoc, append-nil, length, length-append, take, drop, drop-append,
  Bool-cases, ltb, ◌&&◌, ◌==◌, arith,
}
use strata_db.Journal.File.{zeros}
use strata_db.Lsm.Key.{KeyValue}
use strata_db.Lsm.Data.{entry_size, encode_block}
use strata_db.Lsm.Merge.Sorted.{concat}
use strata_db.Lsm.Table.Header.{BlockMeta}
use strata_db.Lsm.Table.Build.{fill, last_key, pad, block_meta, build_blocks}

pub fill-append :
    (target size : ℕ) (es : List KeyValue) → (fill target size es).0 ++ (fill target size es).1 ≡ es
unfolding fill
fill-append target size [] = refl
fill-append target size (e ∷ es) =
    elim (Bool-cases (ltb 0 size && ltb target (size + entry_size e))) [
      | inl full ↦ rw (full, fill) refl
      | inr room ↦ rw (room, fill) (ap (◌∷◌ e) (fill-append target (size + entry_size e) es))
    ]

-- A block's bytes, and its first and last key.
pub record Stored (bytes : List ℕ) (m : BlockMeta) (e : KeyValue) (es : List KeyValue)
    : Type 0 where
  pub bytes_at : take m.len (drop m.offset bytes) ≡ encode_block (e ∷ es)
  pub within : m.offset + m.len ≤ length bytes
  pub min_is : m.min_key ≡ e.key.user_key
  pub max_is : m.max_key ≡ last_key e.key.user_key es

abbrev pub Packed : List ℕ → List BlockMeta → List (List KeyValue) → Type 0
Packed bytes [] [] = Unit
Packed bytes (m ∷ ms) ((e ∷ es) ∷ gs) = Stored bytes m e es × Packed bytes ms gs
Packed bytes (m ∷ ms) ([] ∷ gs) = ⊥
Packed bytes (m ∷ ms) [] = ⊥
Packed bytes [] (g ∷ gs) = ⊥

-- Bytes behind do not matter.
pub Stored-append :
    (bytes more : List ℕ) (m : BlockMeta) (e : KeyValue) (es : List KeyValue)
    → Stored bytes m e es
    → Stored (bytes ++ more) m e es
Stored-append bytes more m e es s = record {
  bytes_at = take-drop-append m.len m.offset bytes more s.within ∙ s.bytes_at;
  within = omega (arith, s.within, length-append bytes more);
  min_is = s.min_is;
  max_is = s.max_is;
}

pub Packed-append :
    (bytes more : List ℕ) (ms : List BlockMeta) (gs : List (List KeyValue))
    → Packed bytes ms gs
    → Packed (bytes ++ more) ms gs
Packed-append bytes more [] [] p = tt
Packed-append bytes more (m ∷ ms) ((e ∷ es) ∷ gs) p =
    (Stored-append bytes more m e es p.0, Packed-append bytes more ms gs p.1)
Packed-append bytes more (m ∷ ms) ([] ∷ gs) p = elim p [ ]
Packed-append bytes more (m ∷ ms) [] p = elim p [ ]
Packed-append bytes more [] (g ∷ gs) p = elim p [ ]

pad-append : (target : ℕ) (bytes : List ℕ) → (more : List ℕ) × (pad target bytes ≡ bytes ++ more)
unfolding pad
pad-append target bytes = elim (Bool-cases (length bytes % target == 0)) [
  | inl whole ↦ ([], rw (whole, pad) (sym (append-nil bytes)))
  | inr part ↦ (zeros (target - length bytes % target), rw (part, pad) refl)
]

-- The first block is not empty: an entry too large for a page gets a block of its own.
fill-first :
    (target : ℕ) (e : KeyValue) (es : List KeyValue)
    → (taken : List KeyValue) × (fill target 0 (e ∷ es) ≡ (e ∷ taken, (fill target 0 (e ∷ es)).1))
unfolding fill
fill-first target e es = ((fill target (0 + entry_size e) es).0, refl)

-- A block at the end of the bytes, with the meta that the loop records for it.
Stored-block :
    (bytes : List ℕ) (e : KeyValue) (es : List KeyValue)
    → length (bytes ++ encode_block (e ∷ es)) < 2 ^ 32
    → Stored
        (bytes ++ encode_block (e ∷ es))
        (block_meta e.key.user_key
          (length bytes)
          (length (bytes ++ encode_block (e ∷ es)) - length bytes)
          (e ∷ es))
        e
        es
unfolding last_key
Stored-block bytes e es h =
    let all = encode_block (e ∷ es) in
    let len : length (bytes ++ all) - length bytes ≡ length all =
      omega (arith, length-append bytes all) in
    let fits : (length (bytes ++ all) - length bytes) % 2 ^ 32 ≡ length all =
      ap (λ n. n % 2 ^ 32) len ∙ mod-eq_of_lt (omega (arith, length-append bytes all)) in
    record {
      bytes_at =
          ap (λ n. take n (drop (length bytes) (bytes ++ all))) fits
          ∙ ap (take (length all)) (drop-append (length bytes) bytes all refl)
          ∙ take-all all;
      within = omega (arith, fits, length-append bytes all);
      min_is = refl;
      max_is = refl;
    }
  where
    take-all : (xs : List ℕ) → take (length xs) xs ≡ xs
    take-all [] = refl
    take-all (x ∷ xs) = ap (◌∷◌ x) (take-all xs)

-- What the loop makes of `entries` behind `bytes`: the blocks hold them all, in order.
pub record Blocked (bytes : List ℕ) (entries : List KeyValue) (final : List ℕ)
    (metas : List BlockMeta) : Type 0 where
  pub groups : List (List KeyValue)
  pub more : List ℕ
  pub grows : final ≡ bytes ++ more
  pub packed : Packed final metas groups
  pub holds : concat groups ≡ entries

build_step :
    (fuel target : ℕ) (bytes : List ℕ) (e : KeyValue) (es taken rest : List KeyValue)
    → fill target 0 (e ∷ es) ≡ (e ∷ taken, rest)
    → let written = bytes ++ encode_block (e ∷ taken) in
      build_blocks (suc fuel) target bytes (e ∷ es) ≡ (
        (build_blocks fuel target (pad target written) rest).0,
        block_meta e.key.user_key (length bytes) (length written - length bytes) (e ∷ taken)
            ∷ (build_blocks fuel target (pad target written) rest).1,
      )
unfolding build_blocks
build_step fuel target bytes e es taken rest h =
    ap
      (λ p. (
        (build_blocks fuel target (pad target (bytes ++ encode_block p.0)) p.1).0,
        block_meta e.key.user_key (length bytes) (length (bytes ++ encode_block p.0) - length bytes)
              p.0
            ∷ (build_blocks fuel target (pad target (bytes ++ encode_block p.0)) p.1).1,
      ))
      h

pub build_blocks-Blocked :
    (fuel target : ℕ) (bytes : List ℕ) (entries : List KeyValue)
    → length entries ≤ fuel
    → length (build_blocks fuel target bytes entries).0 < 2 ^ 32
    → Blocked bytes entries
        (build_blocks fuel target bytes entries).0
        (build_blocks fuel target bytes entries).1
build_blocks-Blocked zero target bytes [] enough small =
    unfold build_blocks in
    record { groups = []; more = []; grows = sym (append-nil bytes); packed = tt; holds = refl }
build_blocks-Blocked (suc fuel) target bytes [] enough small =
    unfold build_blocks in
    record { groups = []; more = []; grows = sym (append-nil bytes); packed = tt; holds = refl }
build_blocks-Blocked zero target bytes (e ∷ es) enough small = absurd (omega arith)
build_blocks-Blocked (suc fuel) target bytes (e ∷ es) enough small =
    let (taken, first) = fill-first target e es in
    let rest = (fill target 0 (e ∷ es)).1 in
    let written = bytes ++ encode_block (e ∷ taken) in
    let step = build_step fuel target bytes e es taken rest first in
    let (padding, padded) = pad-append target written in
    let same : (e ∷ taken) ++ rest ≡ e ∷ es =
      sym (ap (λ p. p.0 ++ rest) first) ∙ fill-append target 0 (e ∷ es) in
    let after =
      build_blocks-Blocked fuel target (pad target written) rest
        (omega (arith, ap length same, length-append (e ∷ taken) rest))
        (subst (λ r. length r.0 < 2 ^ 32) step small) in
    let beyond : (build_blocks fuel target (pad target written) rest).0
        ≡ written ++ (padding ++ after.more) =
      after.grows ∙ ap (λ t. t ++ after.more) padded ∙ append_assoc written padding after.more in
    let meta =
      block_meta e.key.user_key (length bytes) (length written - length bytes) (e ∷ taken) in
    let stored = Stored-block bytes e taken (
      omega (
        arith,
        small,
        ap (λ r. length r.0) step,
        ap length beyond,
        length-append written (padding ++ after.more),
      )) in
    subst (λ r. Blocked bytes (e ∷ es) r.0 r.1) (sym step)
      (record {
        groups = (e ∷ taken) ∷ after.groups;
        more = encode_block (e ∷ taken) ++ (padding ++ after.more);
        grows = beyond ∙ append_assoc bytes (encode_block (e ∷ taken)) (padding ++ after.more);
        packed = (
          subst (λ t. Stored t meta e taken) (sym beyond)
              (Stored-append written (padding ++ after.more) meta e taken stored),
          after.packed,
        );
        holds = ap (λ t. (e ∷ taken) ++ t) after.holds ∙ same;
      })
