-- ===== src/Lsm/Table/Read/Shards.antt =====
-- The shards of a large table: each stands for the run of blocks that it lists.
use mathlib.Core.Path.{subst}
use strata_db.Prelude.{
  ℕ, ◌≡◌, refl, sym, ap, ◌∙◌, inl, inr, List, [], ◌∷◌, ◌++◌, append_assoc, append-nil, Option, none,
  true, false, ◌&&◌, All, All-append_parts, Bool-cases, Result, ok,
}
use strata_db.Prelude.Order.{is_le, cmp_bytes}
use strata_db.Lsm.Error.{LsmError}
use strata_db.Lsm.Key.{KeyValue, cmp_kv}
use strata_db.Lsm.Merge.Sorted.{Sorted, concat}
use strata_db.Lsm.Resolve.Newest.{newest}
use strata_db.Lsm.Table.Header.{BlockMeta, sharded}
use strata_db.Lsm.Table.Build.{last_key, first_min, last_max}
use strata_db.Lsm.Table.Build.Packed.{Packed}
use strata_db.Lsm.Table.Read.{covering, locate_block}
use strata_db.Lsm.Table.Read.Opened.{ShardAt, load_child-ShardAt}
use strata_db.Lsm.Table.Read.Covering.{Sorted-append_parts, newest-covered}
use strata_db.Lsm.Table.Read.Located.{
  Covered, Covered-same, newest-skip, and-right, covering-Covered,
}

pub concat-append : (gs hs : List (List KeyValue)) → concat (gs ++ hs) ≡ concat gs ++ concat hs
concat-append [] hs = refl
concat-append (g ∷ gs) hs =
    ap (λ t. g ++ t) (concat-append gs hs) ∙ sym (append_assoc g (concat gs) (concat hs))

-- The groups of a run of blocks, and of the blocks behind it.
pub record Parts (file : List ℕ) (xs ys : List BlockMeta) (gs : List (List KeyValue)) : Type 0 where
  pub front : List (List KeyValue)
  pub back : List (List KeyValue)
  pub whole : gs ≡ front ++ back
  pub packed_front : Packed file xs front
  pub packed_back : Packed file ys back

pub Packed-split :
    (file : List ℕ) (xs ys : List BlockMeta) (gs : List (List KeyValue))
    → Packed file (xs ++ ys) gs
    → Parts file xs ys gs
Packed-split file [] ys gs h = record {
  front = [];
  back = gs;
  whole = refl;
  packed_front = tt;
  packed_back = h;
}
Packed-split file (x ∷ xs) ys [] h = elim h [ ]
Packed-split file (x ∷ xs) ys ([] ∷ gs) h = elim h [ ]
Packed-split file (x ∷ xs) ys ((e ∷ es) ∷ gs) h =
    let parts = Packed-split file xs ys gs h.1 in
    record {
      front = (e ∷ es) ∷ parts.front;
      back = parts.back;
      whole = ap (◌∷◌ (e ∷ es)) parts.whole;
      packed_front = (h.0, parts.packed_front);
      packed_back = parts.packed_back;
    }

last_key-append :
    (k : List ℕ) (es : List KeyValue) (f : KeyValue) (fs : List KeyValue)
    → last_key k (es ++ (f ∷ fs)) ≡ last_key f.key.user_key fs
unfolding last_key
last_key-append k [] f fs = refl
last_key-append k (e ∷ es) f fs = last_key-append e.key.user_key es f fs

-- The entries of a run of blocks as one run: they begin and end as its range says.
pub record Run (ms : List BlockMeta) (all : List KeyValue) : Type 0 where
  pub first : KeyValue
  pub others : List KeyValue
  pub all_is : all ≡ first ∷ others
  pub min_is : first_min ms ≡ first.key.user_key
  pub max_is : (k : List ℕ) → last_max k ms ≡ last_key first.key.user_key others

pub Packed-Run :
    (file : List ℕ) (m : BlockMeta) (ms : List BlockMeta) (gs : List (List KeyValue))
    → Packed file (m ∷ ms) gs
    → Run (m ∷ ms) (concat gs)
unfolding last_max
Packed-Run file m ms [] h = elim h [ ]
Packed-Run file m ms ([] ∷ gs) h = elim h [ ]
Packed-Run file m [] ((e ∷ es) ∷ []) h = record {
  first = e;
  others = es;
  all_is = append-nil (e ∷ es);
  min_is = h.0.min_is;
  max_is = λ k. h.0.max_is;
}
Packed-Run file m [] ((e ∷ es) ∷ (g ∷ gs)) h = elim h.1 [ ]
Packed-Run file m (n ∷ ns) ((e ∷ es) ∷ gs) h =
    let run = Packed-Run file n ns gs h.1 in
    record {
      first = e;
      others = es ++ (run.first ∷ run.others);
      all_is = ap (λ t. (e ∷ es) ++ t) run.all_is;
      min_is = h.0.min_is;
      max_is =
          λ k. run.max_is m.max_key ∙ sym (last_key-append e.key.user_key es run.first run.others);
    }

-- The directory of a table: each entry has the range of its shard, and points at it.
abbrev pub Directory : List ℕ → ℕ → List BlockMeta → List (List BlockMeta) → Type 0
Directory file sst_id [] [] = Unit
Directory file sst_id (c ∷ cs) ((m ∷ ms) ∷ slices) =
    ShardAt file sst_id c (m ∷ ms)
    × (c.min_key ≡ m.min_key)
    × (c.max_key ≡ last_max [] (m ∷ ms))
    × Directory file sst_id cs slices
Directory file sst_id (c ∷ cs) ([] ∷ slices) = ⊥
Directory file sst_id (c ∷ cs) [] = ⊥
Directory file sst_id [] (slice ∷ slices) = ⊥

-- What a lookup in a table comes to.
pub record Settled (P : KeyValue → Type 0) (file k : List ℕ) (all : List KeyValue)
    (r : Result LsmError (Option BlockMeta)) : Type 0 where
  pub answer : Option BlockMeta
  pub result : r ≡ ok answer
  pub covered : Covered P file k all answer

module _ (P : KeyValue → Type 0) (file k : List ℕ) (sst_id : ℕ) where
  locate-here :
      (c : BlockMeta) (cs slice : List BlockMeta)
      → (is_le (cmp_bytes c.min_key k) && is_le (cmp_bytes k c.max_key)) ≡ true
      → ShardAt file sst_id c slice
      → locate_block file (sharded (c ∷ cs)) k ≡ ok (covering slice k)
  unfolding locate_block covering
  locate-here c cs slice covers at =
      rw (covers, locate_block) (rw (load_child-ShardAt file sst_id c slice at) refl)

  locate-later :
      (c : BlockMeta) (cs : List BlockMeta)
      → (is_le (cmp_bytes c.min_key k) && is_le (cmp_bytes k c.max_key)) ≡ false
      → locate_block file (sharded (c ∷ cs)) k ≡ locate_block file (sharded cs) k
  unfolding locate_block covering
  locate-later c cs passes = rw (passes, locate_block) refl

  -- One shard in front of the others.
  shard-Settled :
      (c : BlockMeta) (cs : List BlockMeta) (m : BlockMeta) (ms : List BlockMeta)
      (front : List (List KeyValue)) (r : List KeyValue)
      → ShardAt file sst_id c (m ∷ ms)
      → c.min_key ≡ m.min_key
      → c.max_key ≡ last_max [] (m ∷ ms)
      → Packed file (m ∷ ms) front
      → Sorted cmp_kv (concat front ++ r)
      → All P (concat front)
      → Settled P file k r (locate_block file (sharded cs) k)
      → Settled P file k (concat front ++ r) (locate_block file (sharded (c ∷ cs)) k)
  shard-Settled c cs m ms front r at low high packed sorted each behind =
      let run = Packed-Run file m ms front packed in
      let es = run.others in
      let e = run.first in
      let sorted_run = subst (λ t. Sorted cmp_kv (t ++ r)) run.all_is sorted in
      let range : (is_le (cmp_bytes c.min_key k) && is_le (cmp_bytes k c.max_key)) ≡ (
          is_le (cmp_bytes e.key.user_key k) && is_le (cmp_bytes k (last_key e.key.user_key es))) =
        ap (λ a. is_le (cmp_bytes a k) && is_le (cmp_bytes k c.max_key)) (low ∙ run.min_is)
        ∙ ap (λ b. is_le (cmp_bytes e.key.user_key k) && is_le (cmp_bytes k b))
            (high ∙ run.max_is []) in
      elim (Bool-cases (is_le (cmp_bytes c.min_key k) && is_le (cmp_bytes k c.max_key))) [
        | inl covers ↦
            let decides = newest-covered k e es r sorted_run (and-right _ _ (sym range ∙ covers)) in
            record {
              answer = covering (m ∷ ms) k;
              result = locate-here c cs (m ∷ ms) covers at;
              covered =
                  Covered-same P file k (concat front) (concat front ++ r) (covering (m ∷ ms) k)
                    (subst (λ t. newest k t ≡ newest k (t ++ r)) (sym run.all_is) (sym decides))
                    (covering-Covered P file k (m ∷ ms) front packed
                      (Sorted-append_parts (concat front) r sorted).0 each);
            }
        | inr passes ↦
            let skip = newest-skip P file k e es r sorted_run (sym range ∙ passes) in
            record {
              answer = behind.answer;
              result = locate-later c cs passes ∙ behind.result;
              covered =
                  Covered-same P file k r (concat front ++ r) behind.answer
                    (subst (λ t. newest k r ≡ newest k (t ++ r)) (sym run.all_is) (sym skip))
                    behind.covered;
            }
      ]

  pub shards-Settled :
      (cs : List BlockMeta) (slices : List (List BlockMeta)) (gs : List (List KeyValue))
      → Directory file sst_id cs slices
      → Packed file (concat slices) gs
      → Sorted cmp_kv (concat gs)
      → All P (concat gs)
      → Settled P file k (concat gs) (locate_block file (sharded cs) k)
  shards-Settled [] [] [] dir packed sorted each = record {
    answer = none;
    result = unfold locate_block covering in refl;
    covered = unfold newest in refl;
  }
  shards-Settled [] [] (g ∷ gs) dir packed sorted each = elim packed [ ]
  shards-Settled [] (s ∷ slices) gs dir packed sorted each = elim dir [ ]
  shards-Settled (c ∷ cs) [] gs dir packed sorted each = elim dir [ ]
  shards-Settled (c ∷ cs) ([] ∷ slices) gs dir packed sorted each = elim dir [ ]
  shards-Settled (c ∷ cs) ((m ∷ ms) ∷ slices) gs dir packed sorted each =
      let parts = Packed-split file (m ∷ ms) (concat slices) gs packed in
      let whole = ap concat parts.whole ∙ concat-append parts.front parts.back in
      let sorted_whole = subst (Sorted cmp_kv) whole sorted in
      let each_whole =
        All-append_parts P (concat parts.front) (concat parts.back) (subst (All P) whole each) in
      subst (λ t. Settled P file k t (locate_block file (sharded (c ∷ cs)) k)) (sym whole)
        (shard-Settled c cs m ms parts.front (concat parts.back) dir.0 dir.1 dir.2
          parts.packed_front sorted_whole each_whole.0
          (shards-Settled cs slices parts.back dir.3 parts.packed_back
            (Sorted-append_parts (concat parts.front) (concat parts.back) sorted_whole).1
            each_whole.1))
