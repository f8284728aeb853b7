-- ===== src/Loader/Examples.antt =====
-- A segment of 600 bytes at 0x100010, from the offset 0x1010 of the image on.
use sisotp.Base.{ℕ, ◌+◌, ◌-◌, ◌*◌, ◌/◌, ◌%◌, ◌≤◌, ◌<◌, ◌≡◌, refl, some, arith}
use sisotp.Loader.{readseg}
use sisotp.Loader.Segment.{readseg-loaded}

abbrev disk : ℕ → ℕ → ℕ
disk sector i = (sector * 7 + i) % 256

abbrev zeros : ℕ → ℕ
zeros x = 0

readseg-loaded_example :
    (m' : ℕ → ℕ) × (readseg disk 4 zeros 0x100010 600 0x1010 ≡ some m')
    × ((i : ℕ) → i < 600 → m' (0x100010 + i) ≡ disk (1 + (0x1010 + i) / 512) ((0x1010 + i) % 512))
    × ((x : ℕ) → x < 0x100000 → m' x ≡ 0)
    × ((x : ℕ) → 0x100010 + 600 ≤ x - x % 512 → m' x ≡ 0)
readseg-loaded_example =
    readseg-loaded disk 4 zeros 0x100010 600 0x1010 (omega arith) refl (omega arith)
