-- ===== src/Filesystem/TuplePage/Examples.antt =====
-- An insert into a fresh page.
use strata_db.Prelude.{ℕ, ◌≡◌, refl, List, [], ◌∷◌, some, length, ◌<◌}
use strata_db.Journal.File.{zeros}
use strata_db.Filesystem.Codec.{from_be_bytes, to_be_bytes}
use strata_db.Filesystem.Header.{write_page_header}
use strata_db.Filesystem.TuplePage.{off_slot_count, get_u16, slot_bytes, insert, init, insert_at}
use strata_db.Filesystem.TuplePage.Slots.{IsPage, insert-IsPage, init-IsPage}

abbrev fresh : List ℕ
fresh = init (zeros 8192)

abbrev tuple : List ℕ
tuple = 120 ∷ 121 ∷ []

fresh-length : length (zeros 8192) ≡ 8192
unfolding zeros
fresh-length = refl

fresh-insert : insert tuple fresh ≡ some (0, insert_at tuple 0 27 8192 fresh)
unfolding insert init zeros get_u16 from_be_bytes write_page_header to_be_bytes
fresh-insert = refl

insert-IsPage_example :
    (0 ≡ get_u16 fresh off_slot_count)
    × IsPage (insert_at tuple 0 27 8192 fresh)
    × (slot_bytes (insert_at tuple 0 27 8192 fresh) 0 ≡ some tuple)
    × ((j : ℕ) → j < 0 → slot_bytes (insert_at tuple 0 27 8192 fresh) j ≡ slot_bytes fresh j)
insert-IsPage_example =
    insert-IsPage tuple fresh (insert_at tuple 0 27 8192 fresh) 0
      (init-IsPage (zeros 8192) fresh-length) fresh-insert
