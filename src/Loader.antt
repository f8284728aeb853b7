-- ===== src/Loader.antt =====
-- jos/boot/main.c: the boot loader. The disk gives the bytes of each sector, and memory is a function
-- from addresses to bytes. The waits for the disk are left out.
pub mod Examples
pub mod Segment
use sisotp.Base.{
  ℕ, zero, suc, ◌+◌, ◌-◌, ◌*◌, ◌/◌, ◌%◌, ◌^◌, ◌&&◌, Option, none, some, ltb, leb, ◌==◌,
  if◌then◌else◌,
}

abbrev pub sectsize : ℕ
sectsize = 512

abbrev pub elfhdr : ℕ
elfhdr = 0x10000

module _ (disk : (sector i : ℕ) → ℕ) where
  -- The sector `offset` at `dst`.
  unfoldable pub readsect : (ℕ → ℕ) → (dst offset : ℕ) → ℕ → ℕ
  readsect m dst offset x =
      if leb dst x && ltb x (dst + sectsize) then disk offset (x - dst) else m x

  -- The loop of `readseg`, on fuel: `pa` may wrap around.
  unfoldable pub readseg_from : (fuel : ℕ) → (ℕ → ℕ) → (pa end_pa offset : ℕ) → Option (ℕ → ℕ)
  readseg_from zero m pa end_pa offset = none
  readseg_from (suc fuel) m pa end_pa offset =
      let rest =
        readseg_from fuel (readsect m pa offset) ((pa + sectsize) % 2 ^ 32) end_pa (offset + 1) in
      if ltb pa end_pa then rest else some m

  unfoldable pub readseg : (fuel : ℕ) → (ℕ → ℕ) → (pa count offset : ℕ) → Option (ℕ → ℕ)
  readseg fuel m pa count offset =
      readseg_from fuel m (pa - pa % sectsize) ((pa + count) % 2 ^ 32) (offset / sectsize + 1)

  abbrev pub half_of : (ℕ → ℕ) → ℕ → ℕ
  half_of m p = m p + m (p + 1) * 2 ^ 8

  abbrev pub word_of : (ℕ → ℕ) → ℕ → ℕ
  word_of m p = half_of m p + half_of m (p + 2) * 2 ^ 16

  -- The loop over the program headers, `n` of which are left.
  unfoldable pub load_each : (n fuel : ℕ) → (ℕ → ℕ) → (ph : ℕ) → Option (ℕ → ℕ)
  load_each zero fuel m ph = some m
  load_each (suc n) fuel m ph =
      elim (readseg fuel m (word_of m (ph + 12)) (word_of m (ph + 20)) (word_of m (ph + 4))) [
        | none ↦ none
        | some m₁ ↦ load_each n fuel m₁ (ph + 32)
      ]

  -- The memory and the entry point of the kernel; none if the image is bad, or if a loop does not end.
  unfoldable pub bootmain : (fuel : ℕ) → (ℕ → ℕ) → Option ((ℕ → ℕ) × ℕ)
  bootmain fuel m = elim (readseg fuel m elfhdr (sectsize * 8) 0) [
    | none ↦ none
    | some m₁ ↦
        if word_of m₁ elfhdr == 0x464c457f
        then elim (load_each (half_of m₁ (elfhdr + 44)) fuel m₁
            (elfhdr + word_of m₁ (elfhdr + 28))) [
              | none ↦ none
              | some m₂ ↦ some (m₂, word_of m₂ (elfhdr + 24))
            ]
        else none
  ]
