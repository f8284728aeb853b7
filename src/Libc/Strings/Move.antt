-- ===== src/Libc/Strings/Move.antt =====
-- jos/lib/string.c: `memmove` on areas that may overlap.
use sisotp.Base.{
  ℕ, zero, suc, ◌+◌, ◌-◌, ◌*◌, ◌/◌, ◌≤◌, ◌≡◌, ◌⊎◌, inl, inr, ◌∙◌, true, ◌&&◌, arith, Bool-cases,
  ltb, leb, if◌then◌else◌,
}
use sisotp.Libc.Strings.{Bytes, store_unit, movs_up, movs_down, by_words, memmove}

-- Memory after `n` bytes from `s` have been moved to `d`, whatever the areas.
abbrev pub moved : Bytes → (d s n : ℕ) → Bytes
moved m d s n x = if leb d x && ltb x (d + n) then m (s + (x - d)) else m x

movs_up_lem :
    (width count n : ℕ) (m : Bytes) (d s : ℕ)
    → n ≡ count * width
    → (d ≤ s) ⊎ (s + n ≤ d)
    → (x : ℕ) → movs_up width count m d s x ≡ moved m d s n x
unfolding movs_up
movs_up_lem width zero n m d s e h x = ground arith
movs_up_lem width (suc count) n m d s e h x =
    let more : width + count * width ≡ n = omega (arith, e) in
    movs_up_lem width count (n - width) (store_unit width m d (λ i. m (s + i))) (d + width)
      (s + width) (omega arith) (ground arith) x
    ∙ ground arith

movs_down_lem :
    (width count n : ℕ) (m : Bytes) (d s : ℕ)
    → n ≡ count * width
    → s ≤ d
    → (x : ℕ) → movs_down width count m (d + n) (s + n) x ≡ moved m d s n x
unfolding movs_down
movs_down_lem width zero n m d s e h x = ground arith
movs_down_lem width (suc count) n m d s e h x =
    let more : width + count * width ≡ n = omega (arith, e) in
    let at_d : d + n - width ≡ d + (n - width) = omega arith in
    let at_s : s + n - width ≡ s + (n - width) = omega arith in
    rw (at_d, at_s)
      (movs_down_lem width count (n - width)
          (store_unit width m (d + (n - width)) (λ i. m (s + (n - width) + i))) d s (omega arith) h
          x
        ∙ ground arith)

by_words_lem : (d s n : ℕ) → by_words d s n ≡ true → n ≡ n / 4 * 4
by_words_lem d s n e = ground arith

move_down :
    (m : Bytes) (d s n x : ℕ)
    → s ≤ d
    → (if by_words (d + n) (s + n) n
          then movs_down 4 (n / 4) m (d + n) (s + n)
          else movs_down 1 n m (d + n) (s + n))
        x
      ≡ moved m d s n x
move_down m d s n x h = elim (Bool-cases (by_words (d + n) (s + n) n)) [
  | inl e ↦ rw e (movs_down_lem 4 (n / 4) n m d s (by_words_lem (d + n) (s + n) n e) h x)
  | inr e ↦ rw e (movs_down_lem 1 n n m d s (omega arith) h x)
]

move_up :
    (m : Bytes) (d s n x : ℕ)
    → (d ≤ s) ⊎ (s + n ≤ d)
    → (if by_words d s n then movs_up 4 (n / 4) m d s else movs_up 1 n m d s) x ≡ moved m d s n x
move_up m d s n x h = elim (Bool-cases (by_words d s n)) [
  | inl e ↦ rw e (movs_up_lem 4 (n / 4) n m d s (by_words_lem d s n e) h x)
  | inr e ↦ rw e (movs_up_lem 1 n n m d s (omega arith) h x)
]

-- `memmove` leaves, at each address of the target area, the byte that stood at the corresponding
-- address of the source area before the call, and every other byte as it was; the areas may overlap
-- in either direction, and be moved by bytes or by words.
pub memmove-moved : (m : Bytes) (dst src n x : ℕ) → memmove m dst src n x ≡ moved m dst src n x
unfolding memmove
memmove-moved m dst src n x = elim (Bool-cases (ltb src dst && ltb dst (src + n))) [
  | inl e ↦ rw e (move_down m dst src n x (ground arith))
  | inr e ↦ rw e (move_up m dst src n x (ground arith))
]
