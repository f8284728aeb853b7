-- ===== src/Libc/Strings.antt =====
-- jos/lib/string.c. Memory is a function from addresses to bytes; strings lie below 2 ^ 32, so that
-- no address wraps around. A loop that ends at the byte 0 runs on fuel, the bytes that it may read,
-- and returns none if the fuel is used up; a loop that counts `size` down recurses on that.
pub mod Move
pub mod Bounded
pub mod Fill
use sisotp.Base.{
  ℕ, zero, suc, ◌+◌, ◌-◌, ◌*◌, ◌/◌, ◌%◌, ◌^◌, Bool, true, false, not, ◌&&◌, ◌||◌, Option, none,
  some, ltb, leb, ◌==◌, if◌then◌else◌, update, bit_or, ℤ, pos, int_difference,
}

abbrev pub Bytes : Type 0
Bytes = ℕ → ℕ

unfoldable pub strlen_from : (fuel : ℕ) → Bytes → (s n : ℕ) → Option ℕ
strlen_from zero m s n = none
strlen_from (suc fuel) m s n =
    let rest = strlen_from fuel m (s + 1) (n + 1) in if m s == 0 then some n else rest

unfoldable pub strlen : (fuel : ℕ) → Bytes → (s : ℕ) → Option ℕ
strlen fuel m s = strlen_from fuel m s 0

unfoldable pub strnlen_from : (size : ℕ) → Bytes → (s n : ℕ) → ℕ
strnlen_from zero m s n = n
strnlen_from (suc size) m s n =
    let rest = strnlen_from size m (s + 1) (n + 1) in if m s == 0 then n else rest

unfoldable pub strnlen : (size : ℕ) → Bytes → (s : ℕ) → ℕ
strnlen size m s = strnlen_from size m s 0

unfoldable pub strcpy : (fuel : ℕ) → Bytes → (dst src : ℕ) → Option Bytes
strcpy zero m dst src = none
strcpy (suc fuel) m dst src =
    let rest = strcpy fuel (update m dst (m src)) (dst + 1) (src + 1) in
    if m src == 0 then some (update m dst (m src)) else rest

unfoldable pub strcat : (fuel : ℕ) → Bytes → (dst src : ℕ) → Option Bytes
strcat fuel m dst src = elim (strlen fuel m dst) [
  | none ↦ none
  | some len ↦ strcpy fuel m (dst + len) src
]

unfoldable pub strncpy : (size : ℕ) → Bytes → (dst src : ℕ) → Bytes
strncpy zero m dst src = m
strncpy (suc size) m dst src =
    let m₁ = update m dst (m src) in
    strncpy size m₁ (dst + 1) (if m₁ src == 0 then src else src + 1)

-- The loop of `strlcpy`, on the bytes that it may copy; it returns where `dst` stands then.
unfoldable pub strlcpy_loop : (room : ℕ) → Bytes → (dst src : ℕ) → Bytes × ℕ
strlcpy_loop zero m dst src = (m, dst)
strlcpy_loop (suc room) m dst src =
    let rest = strlcpy_loop room (update m dst (m src)) (dst + 1) (src + 1) in
    if m src == 0 then (m, dst) else rest

unfoldable pub strlcpy : (size : ℕ) → Bytes → (dst src : ℕ) → Bytes × ℕ
strlcpy zero m dst src = (m, 0)
strlcpy (suc size) m dst src =
    let (m₁, end) = strlcpy_loop size m dst src in (update m₁ end 0, end - dst)

unfoldable pub strcmp : (fuel : ℕ) → Bytes → (p q : ℕ) → Option ℤ
strcmp zero m p q = none
strcmp (suc fuel) m p q =
    let rest = strcmp fuel m (p + 1) (q + 1) in
    if not (m p == 0) && m p == m q then rest else some (int_difference (m p) (m q))

unfoldable pub strncmp : (n : ℕ) → Bytes → (p q : ℕ) → ℤ
strncmp zero m p q = pos 0
strncmp (suc n) m p q =
    let rest = strncmp n m (p + 1) (q + 1) in
    if not (m p == 0) && m p == m q then rest else int_difference (m p) (m q)

-- A null pointer is `some none`.
unfoldable pub strchr : (fuel : ℕ) → Bytes → (s c : ℕ) → Option (Option ℕ)
strchr zero m s c = none
strchr (suc fuel) m s c =
    let rest = strchr fuel m (s + 1) c in
    if m s == 0 then some none else (if m s == c then some (some s) else rest)

unfoldable pub strfind : (fuel : ℕ) → Bytes → (s c : ℕ) → Option ℕ
strfind zero m s c = none
strfind (suc fuel) m s c =
    let rest = strfind fuel m (s + 1) c in if m s == 0 || m s == c then some s else rest

-- `rep stosb` and `rep stosl`: `count` units of `width` bytes, each with the bytes of `c` from the
-- lowest.
abbrev pub store_unit : (width : ℕ) → Bytes → (p : ℕ) → (ℕ → ℕ) → Bytes
store_unit width m p byte x = if leb p x && ltb x (p + width) then byte (x - p) else m x

unfoldable pub stos : (width count : ℕ) → Bytes → (p : ℕ) → (ℕ → ℕ) → Bytes
stos width zero m p byte = m
stos width (suc count) m p byte = stos width count (store_unit width m p byte) (p + width) byte

-- `rep movsb` and `rep movsl` with the direction flag clear: each unit is read, then written.
unfoldable pub movs_up : (width count : ℕ) → Bytes → (d s : ℕ) → Bytes
movs_up width zero m d s = m
movs_up width (suc count) m d s =
    movs_up width count (store_unit width m d (λ i. m (s + i))) (d + width) (s + width)

-- The same with the flag set. `d` and `s` are the ends of the areas: the unit below them is moved
-- first, as the instruction starts at `d - width` and `s - width`.
unfoldable pub movs_down : (width count : ℕ) → Bytes → (d s : ℕ) → Bytes
movs_down width zero m d s = m
movs_down width (suc count) m d s =
    movs_down width count (store_unit width m (d - width) (λ i. m (s - width + i))) (d - width)
      (s - width)

abbrev pub by_words : (d s n : ℕ) → Bool
by_words d s n = s % 4 == 0 && (d % 4 == 0) && (n % 4 == 0)

unfoldable pub memmove : Bytes → (dst src n : ℕ) → Bytes
memmove m dst src n =
    if ltb src dst && ltb dst (src + n)
    then (if by_words (dst + n) (src + n) n
        then movs_down 4 (n / 4) m (dst + n) (src + n)
        else movs_down 1 n m (dst + n) (src + n))
    else (if by_words dst src n then movs_up 4 (n / 4) m dst src else movs_up 1 n m dst src)

unfoldable pub memcpy : Bytes → (dst src n : ℕ) → Bytes
memcpy = memmove

-- The byte `i` of the word that `memset` makes of the byte `c`.
abbrev pub repeated : (c i : ℕ) → ℕ
repeated c i = bit_or (bit_or (bit_or (c * 2 ^ 24) (c * 2 ^ 16)) (c * 2 ^ 8)) c / 2 ^ (8 * i) % 256

unfoldable pub memset : Bytes → (v c n : ℕ) → Bytes
memset m v c n =
    if n == 0
    then m
    else (if v % 4 == 0 && n % 4 == 0
        then stos 4 (n / 4) m v (repeated (c % 256))
        else stos 1 n m v (λ i. c % 256))

unfoldable pub memcmp : (n : ℕ) → Bytes → (s1 s2 : ℕ) → ℤ
memcmp zero m s1 s2 = pos 0
memcmp (suc n) m s1 s2 =
    let rest = memcmp n m (s1 + 1) (s2 + 1) in
    if m s1 == m s2 then rest else int_difference (m s1) (m s2)

unfoldable pub memfind : (n : ℕ) → Bytes → (s c : ℕ) → ℕ
memfind zero m s c = s
memfind (suc n) m s c = let rest = memfind n m (s + 1) c in if m s == c % 256 then s else rest
