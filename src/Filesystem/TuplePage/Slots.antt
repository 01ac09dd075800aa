-- ===== src/Filesystem/TuplePage/Slots.antt =====
-- The invariant of a slotted page, and what an insert does to its slots.
use mathlib.Core.Path.{subst}
use strata_db.Prelude.{
  ℕ, ◌+◌, ◌-◌, ◌*◌, ◌^◌, ◌≤◌, ◌<◌, ◌≡◌, refl, sym, ap, ◌∙◌, inl, inr, List, [], ◌∷◌, Option, none,
  some, false, length, length-drop, take, drop, All, ltb, leb, leb→le, ◌==◌, if◌then◌else◌, ==_iff,
  Bool-cases, arith,
}
use strata_db.Filesystem.Codec.{be_u16, to_be_bytes, from_be_bytes}
use strata_db.Filesystem.Codec.RoundTrip.{from_be_bytes-to_be_bytes}
use strata_db.Filesystem.TuplePage.{
  page_size, off_slot_count, off_free_start, off_free_end, slot_array_offset, slot_size, get_u16,
  put_u16, is_deleted, slot_bytes, insert_at, insert, init, tuple_page, format_version,
}
use strata_db.Filesystem.Header.{new_header, header_bytes, write_page_header, off_checksum}
use strata_db.Filesystem.TuplePage.Writes.{apply, Apart, length-apply, take-apply, take-apply_hit}

abbrev pub slot_pos : ℕ → ℕ
slot_pos j = slot_array_offset + j * slot_size

-- The slot array ends where the free space begins, and the tuples lie behind it.
pub record IsPage (buf : List ℕ) : Type 0 where
  pub size : length buf ≡ page_size
  pub start : get_u16 buf off_free_start ≡ slot_pos (get_u16 buf off_slot_count)
  pub gap : get_u16 buf off_free_start ≤ get_u16 buf off_free_end
  pub room : get_u16 buf off_free_end ≤ page_size
  pub slots :
      (j : ℕ)
      → j < get_u16 buf off_slot_count
      → (get_u16 buf off_free_end ≤ get_u16 buf (slot_pos j))
        × (get_u16 buf (slot_pos j) + get_u16 buf (slot_pos j + 2) ≤ page_size)

-- The copies of `insert_at`.
abbrev writes : List ℕ → ℕ → ℕ → ℕ → List (ℕ × List ℕ)
writes tuple sc fs fe =
    (fe - length tuple, tuple)
    ∷ (fs, be_u16 (fe - length tuple))
    ∷ (fs + 2, be_u16 (length tuple))
    ∷ (fs + 4, be_u16 0)
    ∷ (fs + 6, be_u16 0)
    ∷ (off_slot_count, be_u16 (sc + 1))
    ∷ (off_free_start, be_u16 (fs + slot_size))
    ∷ (off_free_end, be_u16 (fe - length tuple))
    ∷ []

module _ (tuple buf : List ℕ) (sc fs fe : ℕ) (size : length buf ≡ page_size)
    (start : fs ≡ slot_pos sc) (fits : fs + (length tuple + slot_size) ≤ fe)
    (room : fe ≤ page_size) where
  after : List ℕ
  after = insert_at tuple sc fs fe buf

  insert_at-apply : after ≡ apply (writes tuple sc fs fe) buf
  unfolding after insert_at put_u16
  insert_at-apply = refl

  -- The slot array in front of the free space, and the tuples behind it, stay as they are.
  after-front :
      (n k : ℕ) → slot_array_offset ≤ k → k + n ≤ fs → take n (drop k after) ≡ take n (drop k buf)
  unfolding to_be_bytes
  after-front n k low high =
      ap (λ t. take n (drop k t)) insert_at-apply
      ∙ take-apply page_size n k (writes tuple sc fs fe) buf
          (
            (omega arith, inl (omega arith)),
            (
              (omega arith, inl (omega arith)),
              (
                (omega arith, inl (omega arith)),
                (
                  (omega arith, inl (omega arith)),
                  (
                    (omega arith, inl (omega arith)),
                    (
                      (omega arith, inr (omega arith)),
                      ((omega arith, inr (omega arith)), ((omega arith, inr (omega arith)), tt)),
                    ),
                  ),
                ),
              ),
            ),
          )
          size

  after-behind : (n k : ℕ) → fe ≤ k → take n (drop k after) ≡ take n (drop k buf)
  unfolding to_be_bytes
  after-behind n k low =
      ap (λ t. take n (drop k t)) insert_at-apply
      ∙ take-apply page_size n k (writes tuple sc fs fe) buf
          (
            (omega arith, inr (omega arith)),
            (
              (omega arith, inr (omega arith)),
              (
                (omega arith, inr (omega arith)),
                (
                  (omega arith, inr (omega arith)),
                  (
                    (omega arith, inr (omega arith)),
                    (
                      (omega arith, inr (omega arith)),
                      ((omega arith, inr (omega arith)), ((omega arith, inr (omega arith)), tt)),
                    ),
                  ),
                ),
              ),
            ),
          )
          size

  after-tuple : take (length tuple) (drop (fe - length tuple) after) ≡ tuple
  unfolding to_be_bytes
  after-tuple =
      ap (λ t. take (length tuple) (drop (fe - length tuple) t)) insert_at-apply
      ∙ take-apply_hit page_size (fe - length tuple, tuple) (drop 1 (writes tuple sc fs fe)) buf
          (omega arith)
          (
            (omega arith, inr (omega arith)),
            (
              (omega arith, inr (omega arith)),
              (
                (omega arith, inr (omega arith)),
                (
                  (omega arith, inr (omega arith)),
                  (
                    (omega arith, inr (omega arith)),
                    ((omega arith, inr (omega arith)), ((omega arith, inr (omega arith)), tt)),
                  ),
                ),
              ),
            ),
          )
          size

  -- The fields that the insert writes, one after the other.
  after-field :
      (off v : ℕ) (pre post : List (ℕ × List ℕ))
      → after ≡ apply ((off, be_u16 v) ∷ post) (apply pre buf)
      → v < 2 ^ 16
      → off + 2 ≤ page_size
      → All (λ w. w.0 + length w.1 ≤ page_size) pre
      → All (Apart page_size 2 off) post
      → get_u16 after off ≡ v
  unfolding get_u16 to_be_bytes
  after-field off v pre post e small inside early late =
      ap (λ t. from_be_bytes (take 2 (drop off t))) e
      ∙ ap from_be_bytes (
          take-apply_hit page_size (off, be_u16 v) post (apply pre buf) inside late
            (length-apply page_size pre buf early size))
      ∙ from_be_bytes-to_be_bytes 2 v small

  after-slot_offset : get_u16 after fs ≡ fe - length tuple
  unfolding after insert_at put_u16 to_be_bytes
  after-slot_offset =
      after-field fs (fe - length tuple) (take 1 (writes tuple sc fs fe))
        (drop 2 (writes tuple sc fs fe)) refl (omega arith) (omega arith) (omega arith, tt)
        (
          (omega arith, inl (omega arith)),
          (
            (omega arith, inl (omega arith)),
            (
              (omega arith, inl (omega arith)),
              (
                (omega arith, inr (omega arith)),
                ((omega arith, inr (omega arith)), ((omega arith, inr (omega arith)), tt)),
              ),
            ),
          ),
        )

  after-slot_len : get_u16 after (fs + 2) ≡ length tuple
  unfolding after insert_at put_u16 to_be_bytes
  after-slot_len =
      after-field (fs + 2) (length tuple) (take 2 (writes tuple sc fs fe))
        (drop 3 (writes tuple sc fs fe)) refl (omega arith) (omega arith)
        (omega arith, (omega arith, tt))
        (
          (omega arith, inl (omega arith)),
          (
            (omega arith, inl (omega arith)),
            (
              (omega arith, inr (omega arith)),
              ((omega arith, inr (omega arith)), ((omega arith, inr (omega arith)), tt)),
            ),
          ),
        )

  after-slot_flags : get_u16 after (fs + 4) ≡ 0
  unfolding after insert_at put_u16 to_be_bytes
  after-slot_flags =
      after-field (fs + 4) 0 (take 3 (writes tuple sc fs fe)) (drop 4 (writes tuple sc fs fe)) refl
        (omega arith) (omega arith) (omega arith, (omega arith, (omega arith, tt)))
        (
          (omega arith, inl (omega arith)),
          (
            (omega arith, inr (omega arith)),
            ((omega arith, inr (omega arith)), ((omega arith, inr (omega arith)), tt)),
          ),
        )

  after-slot_count : get_u16 after off_slot_count ≡ sc + 1
  unfolding after insert_at put_u16 to_be_bytes
  after-slot_count =
      after-field off_slot_count (sc + 1) (take 5 (writes tuple sc fs fe))
        (drop 6 (writes tuple sc fs fe)) refl (omega arith) (omega arith)
        (omega arith, (omega arith, (omega arith, (omega arith, (omega arith, tt)))))
        ((omega arith, inl (omega arith)), ((omega arith, inl (omega arith)), tt))

  after-free_start : get_u16 after off_free_start ≡ fs + slot_size
  unfolding after insert_at put_u16 to_be_bytes
  after-free_start =
      after-field off_free_start (fs + slot_size) (take 6 (writes tuple sc fs fe))
        (drop 7 (writes tuple sc fs fe)) refl (omega arith) (omega arith)
        (omega arith, (omega arith, (omega arith, (omega arith, (omega arith, (omega arith, tt))))))
        ((omega arith, inl (omega arith)), tt)

  after-free_end : get_u16 after off_free_end ≡ fe - length tuple
  unfolding after insert_at put_u16 to_be_bytes
  after-free_end =
      after-field off_free_end (fe - length tuple) (take 7 (writes tuple sc fs fe))
        (drop 8 (writes tuple sc fs fe)) refl (omega arith) (omega arith)
        (
          omega arith,
          (
            omega arith,
            (omega arith, (omega arith, (omega arith, (omega arith, (omega arith, tt))))),
          ),
        )
        tt

lt_of_ne : (j n : ℕ) → j < n + 1 → (j == n) ≡ false → j < n
lt_of_ne j n h e = ground (arith, h, e)

fits_of_test : (a b : ℕ) → ltb a b ≡ false → b ≤ a
fits_of_test a b h = ground (arith, h)

slot_bytes-in :
    (buf : List ℕ) (j : ℕ)
    → j < get_u16 buf off_slot_count
    → slot_bytes buf j ≡ (
        if is_deleted (get_u16 buf (slot_pos j + 4))
        then none
        else some (take (get_u16 buf (slot_pos j + 2)) (drop (get_u16 buf (slot_pos j)) buf)))
unfolding slot_bytes
slot_bytes-in buf j h = elim (Bool-cases (leb (get_u16 buf off_slot_count) j)) [
  | inl past ↦ absurd (omega (arith, h, leb→le (get_u16 buf off_slot_count) j past))
  | inr in_ ↦ rw (in_, slot_bytes) refl
]

module _ (tuple buf : List ℕ) (page : IsPage buf)
    (fits : get_u16 buf off_free_start + (length tuple + slot_size)
      ≤ get_u16 buf off_free_end) where
  abbrev count : ℕ
  count = get_u16 buf off_slot_count

  abbrev fs : ℕ
  fs = get_u16 buf off_free_start

  abbrev fe : ℕ
  fe = get_u16 buf off_free_end

  new_page : List ℕ
  new_page = insert_at tuple count fs fe buf

  new-size : length new_page ≡ page_size
  unfolding new_page insert_at put_u16 to_be_bytes
  new-size =
      length-apply page_size (writes tuple count fs fe) buf
        (
          omega arith,
          (
            omega arith,
            (
              omega arith,
              (omega arith, (omega arith, (omega arith, (omega arith, (omega arith, tt))))),
            ),
          ),
        )
        page.size

  new-old_field : (p : ℕ) → slot_array_offset ≤ p → p + 2 ≤ fs → get_u16 new_page p ≡ get_u16 buf p
  unfolding new_page after get_u16
  new-old_field p low high =
      ap from_be_bytes
        (after-front tuple buf count fs fe page.size page.start fits page.room 2 p low high)

  new-count : get_u16 new_page off_slot_count ≡ count + 1
  unfolding new_page after
  new-count = after-slot_count tuple buf count fs fe page.size page.start fits page.room

  new-start : get_u16 new_page off_free_start ≡ fs + slot_size
  unfolding new_page after
  new-start = after-free_start tuple buf count fs fe page.size page.start fits page.room

  new-end : get_u16 new_page off_free_end ≡ fe - length tuple
  unfolding new_page after
  new-end = after-free_end tuple buf count fs fe page.size page.start fits page.room

  new-offset : get_u16 new_page (slot_pos count) ≡ fe - length tuple
  unfolding new_page after
  new-offset =
      ap (get_u16 new_page) (sym page.start)
      ∙ after-slot_offset tuple buf count fs fe page.size page.start fits page.room

  new-len : get_u16 new_page (slot_pos count + 2) ≡ length tuple
  unfolding new_page after
  new-len =
      ap (λ p. get_u16 new_page (p + 2)) (sym page.start)
      ∙ after-slot_len tuple buf count fs fe page.size page.start fits page.room

  new-flags : get_u16 new_page (slot_pos count + 4) ≡ 0
  unfolding new_page after
  new-flags =
      ap (λ p. get_u16 new_page (p + 4)) (sym page.start)
      ∙ after-slot_flags tuple buf count fs fe page.size page.start fits page.room

  new-slot : slot_bytes new_page count ≡ some tuple
  unfolding new_page after
  new-slot =
      slot_bytes-in new_page count (omega (arith, new-count))
      ∙ (rw (new-flags, new-len, new-offset)
          (ap some (after-tuple tuple buf count fs fe page.size page.start fits page.room)))

  old-slot : (j : ℕ) → j < count → slot_bytes new_page j ≡ slot_bytes buf j
  unfolding new_page after
  old-slot j h =
      let start = page.start in
      let flags = new-old_field (slot_pos j + 4) (omega arith) (omega (arith, h, start)) in
      let len = new-old_field (slot_pos j + 2) (omega arith) (omega (arith, h, start)) in
      let offset = new-old_field (slot_pos j) (omega arith) (omega (arith, h, start)) in
      let held =
        after-behind tuple buf count fs fe page.size page.start fits page.room
          (get_u16 buf (slot_pos j + 2)) (get_u16 buf (slot_pos j)) (page.slots j h).0 in
      slot_bytes-in new_page j (omega (arith, h, new-count))
      ∙ (rw (flags, len, offset, held) (sym (slot_bytes-in buf j h)))

  new-slots :
      (j : ℕ)
      → j < count + 1
      → (fe - length tuple ≤ get_u16 new_page (slot_pos j))
        × (get_u16 new_page (slot_pos j) + get_u16 new_page (slot_pos j + 2) ≤ page_size)
  new-slots j h = elim (Bool-cases (j == count)) [
    | inl last ↦
        subst
          (λ i.
            (fe - length tuple ≤ get_u16 new_page (slot_pos i))
            × (get_u16 new_page (slot_pos i) + get_u16 new_page (slot_pos i + 2) ≤ page_size))
          (sym ((==_iff j count).0 last))
          (omega (arith, new-offset), omega (arith, new-offset, new-len, page.room, fits))
    | inr earlier ↦
        let before : j < count = lt_of_ne j count h earlier in
        let start = page.start in
        let len = new-old_field (slot_pos j + 2) (omega arith) (omega (arith, before, start)) in
        let offset = new-old_field (slot_pos j) (omega arith) (omega (arith, before, start)) in
        let (low, high) = page.slots j before in
        (omega (arith, offset, low), omega (arith, offset, len, high))
  ]

  new-IsPage : IsPage new_page
  new-IsPage = record {
    size = new-size;
    start = omega (arith, new-start, new-count, page.start);
    gap = omega (arith, new-start, new-end, fits);
    room = omega (arith, new-end, page.room);
    slots = λ j h.
        let (low, high) = new-slots j (omega (arith, h, new-count)) in
        (omega (arith, new-end, low), high);
  }

-- On a page whose slot array ends where the free space begins and whose tuples lie behind the free
-- space, an insert that finds room answers with the next slot, leaves such a page, stores the tuple
-- in that slot, where it is read back byte for byte, and leaves every earlier slot, live or
-- deleted, reading as before.
pub insert-IsPage :
    (tuple buf buf' : List ℕ) (id : ℕ)
    → IsPage buf
    → insert tuple buf ≡ some (id, buf')
    → (id ≡ get_u16 buf off_slot_count)
      × IsPage buf'
      × (slot_bytes buf' id ≡ some tuple)
      × ((j : ℕ) → j < id → slot_bytes buf' j ≡ slot_bytes buf j)
unfolding insert new_page
insert-IsPage tuple buf buf' id page e =
    elim (Bool-cases
      (ltb (get_u16 buf off_free_end - get_u16 buf off_free_start) (length tuple + slot_size))) [
        | inl full ↦ let refused = (rw (full, insert) at e) in cc
        | inr room ↦
            let fits : get_u16 buf off_free_start + (length tuple + slot_size)
                ≤ get_u16 buf off_free_end =
              omega (
                arith,
                fits_of_test (get_u16 buf off_free_end - get_u16 buf off_free_start)
                    (length tuple + slot_size) room,
                page.gap,
              ) in
            let made : ◌≡◌ {A = Option (ℕ × List ℕ)}
                (some (get_u16 buf off_slot_count, new_page tuple buf page fits))
                (some (id, buf')) =
              (rw (room, insert) at e) in
            let both : ◌≡◌ {A = ℕ × List ℕ}
                (get_u16 buf off_slot_count, new_page tuple buf page fits) (id, buf') =
              cc in
            subst
              (λ r.
                (r.0 ≡ get_u16 buf off_slot_count)
                × IsPage r.1
                × (slot_bytes r.1 r.0 ≡ some tuple)
                × ((j : ℕ) → j < r.0 → slot_bytes r.1 j ≡ slot_bytes buf j))
              both
              (
                refl,
                new-IsPage tuple buf page fits,
                new-slot tuple buf page fits,
                old-slot tuple buf page fits,
              )
      ]

-- A fresh page has no slot, and all its room.
pub init-IsPage : (buf : List ℕ) → length buf ≡ page_size → IsPage (init buf)
unfolding init put_u16 get_u16 to_be_bytes write_page_header header_bytes
init-IsPage buf size =
    let base = write_page_header (new_header tuple_page format_version) buf in
    let base_size : length base ≡ page_size = omega (arith, length-drop off_checksum buf, size) in
    let c_count =
      take-apply_hit page_size (off_slot_count, be_u16 0)
        ((off_free_start, be_u16 27) ∷ (off_free_end, be_u16 8192) ∷ []) base (omega arith)
        ((omega arith, inl (omega arith)), ((omega arith, inl (omega arith)), tt)) base_size in
    let c_start =
      take-apply_hit page_size (off_free_start, be_u16 27) ((off_free_end, be_u16 8192) ∷ [])
        (apply ((off_slot_count, be_u16 0) ∷ []) base) (omega arith)
        ((omega arith, inl (omega arith)), tt)
        (length-apply page_size ((off_slot_count, be_u16 0) ∷ []) base (omega arith, tt)
          base_size) in
    let c_end =
      take-apply_hit page_size (off_free_end, be_u16 8192) []
        (apply ((off_slot_count, be_u16 0) ∷ (off_free_start, be_u16 27) ∷ []) base) (omega arith)
        tt
        (length-apply page_size ((off_slot_count, be_u16 0) ∷ (off_free_start, be_u16 27) ∷ []) base
          (omega arith, (omega arith, tt)) base_size) in
    let zero_slots : get_u16 (init buf) off_slot_count ≡ 0 =
      ap from_be_bytes c_count ∙ from_be_bytes-to_be_bytes 2 0 (omega arith) in
    let starts : get_u16 (init buf) off_free_start ≡ 27 =
      ap from_be_bytes c_start ∙ from_be_bytes-to_be_bytes 2 27 (omega arith) in
    let ends : get_u16 (init buf) off_free_end ≡ 8192 =
      ap from_be_bytes c_end ∙ from_be_bytes-to_be_bytes 2 8192 (omega arith) in
    record {
      size =
          length-apply page_size
            ((off_slot_count, be_u16 0)
              ∷ (off_free_start, be_u16 27)
              ∷ (off_free_end, be_u16 8192)
              ∷ [])
            base (omega arith, (omega arith, (omega arith, tt))) base_size;
      start = omega (arith, starts, zero_slots);
      gap = omega (arith, starts, ends);
      room = omega (arith, ends);
      slots = λ j h. absurd (omega (arith, h, zero_slots));
    }
