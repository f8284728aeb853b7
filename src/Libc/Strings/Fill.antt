-- ===== src/Libc/Strings/Fill.antt =====
-- jos/lib/string.c: `memset`, by bytes and by words.
use sisotp.Base.{
  ℕ, zero, suc, ◌+◌, ◌-◌, ◌*◌, ◌/◌, ◌%◌, ◌^◌, ◌<◌, ◌≡◌, inl, inr, refl, ap, ◌∙◌, ◌&&◌, arith,
  Bool-cases, ltb, leb, ◌==◌, if◌then◌else◌, bit_or, bit_or-div, bit_or-mod, bit_or-zero,
  bit_or-zero_left,
}
use sisotp.Libc.Strings.{Bytes, store_unit, stos, repeated, memset}

-- Memory with the byte `b` at the `n` addresses from `p`.
abbrev pub filled : Bytes → (p b n : ℕ) → Bytes
filled m p b n x = if leb p x && ltb x (p + n) then b else m x

stos_lem :
    (width count n : ℕ) (m : Bytes) (p b : ℕ) (byte : ℕ → ℕ)
    → n ≡ count * width
    → ((i : ℕ) → i < width → byte i ≡ b)
    → (x : ℕ) → stos width count m p byte x ≡ filled m p b n x
unfolding stos
stos_lem width zero n m p b byte e h x = ground arith
stos_lem width (suc count) n m p b byte e h x =
    let more : width + count * width ≡ n = omega (arith, e) in
    stos_lem width count (n - width) (store_unit width m p byte) (p + width) b byte (omega arith) h
      x
    ∙ ground (arith, h (x - p))

bit_or-byte : (k a b : ℕ) → bit_or a b / 2 ^ k % 256 ≡ bit_or (a / 2 ^ k % 256) (b / 2 ^ k % 256)
bit_or-byte k a b = rw (bit_or-div k a b) (bit_or-mod 8 (a / 2 ^ k) (b / 2 ^ k))

-- The byte above `2 ^ k` of the word, from the bytes of its parts.
bit_or-bytes :
    (k a b c d : ℕ)
    → bit_or (bit_or (bit_or a b) c) d / 2 ^ k % 256
      ≡ bit_or
          (bit_or (bit_or (a / 2 ^ k % 256) (b / 2 ^ k % 256)) (c / 2 ^ k % 256))
          (d / 2 ^ k % 256)
bit_or-bytes k a b c d =
    bit_or-byte k (bit_or (bit_or a b) c) d
    ∙ ap (λ v. bit_or v (d / 2 ^ k % 256))
        (bit_or-byte k (bit_or a b) c ∙ ap (λ v. bit_or v (c / 2 ^ k % 256)) (bit_or-byte k a b))

module _ (c : ℕ) (h : c < 256) where
  one_part :
      (k p q r s : ℕ)
      → c * 2 ^ 24 / 2 ^ k % 256 ≡ p
      → c * 2 ^ 16 / 2 ^ k % 256 ≡ q
      → c * 2 ^ 8 / 2 ^ k % 256 ≡ r
      → c / 2 ^ k % 256 ≡ s
      → bit_or (bit_or (bit_or (c * 2 ^ 24) (c * 2 ^ 16)) (c * 2 ^ 8)) c / 2 ^ k % 256
        ≡ bit_or (bit_or (bit_or p q) r) s
  one_part k p q r s e f g o =
      bit_or-bytes k (c * 2 ^ 24) (c * 2 ^ 16) (c * 2 ^ 8) c ∙ rw (e, f, g, o) refl

  or_zeros :
      (bit_or (bit_or (bit_or 0 0) 0) c ≡ c)
      × (bit_or (bit_or (bit_or 0 0) c) 0 ≡ c)
      × (bit_or (bit_or (bit_or 0 c) 0) 0 ≡ c)
      × (bit_or (bit_or (bit_or c 0) 0) 0 ≡ c)
  or_zeros = (
    bit_or-zero_left c,
    rw (bit_or-zero_left c) (bit_or-zero c),
    rw (bit_or-zero_left c, bit_or-zero c) (bit_or-zero c),
    rw (bit_or-zero c, bit_or-zero c) (bit_or-zero c),
  )

  repeated_lem : (i : ℕ) → i < 4 → repeated c i ≡ c
  repeated_lem zero l =
      one_part 0 0 0 0 c (omega arith) (omega arith) (omega arith) (omega arith) ∙ or_zeros.0
  repeated_lem (suc zero) l =
      one_part 8 0 0 c 0 (omega arith) (omega arith) (omega arith) (omega arith) ∙ or_zeros.1
  repeated_lem (suc (suc zero)) l =
      one_part 16 0 c 0 0 (omega arith) (omega arith) (omega arith) (omega arith) ∙ or_zeros.2
  repeated_lem (suc (suc (suc zero))) l =
      one_part 24 c 0 0 0 (omega arith) (omega arith) (omega arith) (omega arith) ∙ or_zeros.3
  repeated_lem (suc (suc (suc (suc i)))) l = absurd (omega arith)

-- `memset` stores the lowest byte of `c` at the `n` addresses from `v`, and changes no other, in the
-- variant by bytes and in the one by words.
memset-filled : (m : Bytes) (v c n x : ℕ) → memset m v c n x ≡ filled m v (c % 256) n x
unfolding memset
memset-filled m v c n x = elim (Bool-cases (n == 0)) [
  | inl z ↦ rw z (ground arith)
  | inr z ↦ rw z (elim (Bool-cases (v % 4 == 0 && n % 4 == 0)) [
    | inl e ↦ rw e (
        stos_lem 4 (n / 4) n m v (c % 256) (repeated (c % 256)) (ground arith)
          (repeated_lem (c % 256) (omega arith)) x)
    | inr e ↦ rw e (stos_lem 1 n n m v (c % 256) (λ i. c % 256) (omega arith) (λ i l. refl) x)
  ])
]
