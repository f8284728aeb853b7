-- ===== src/Libc/Format/Scanning.antt =====
-- jos/lib/printfmt.c: the fuel that the flags of an escape sequence need.
use sisotp.Base.{
  ℕ, zero, suc, ◌+◌, ◌-◌, ◌*◌, ◌≤◌, ◌<◌, ◌≡◌, ◌≢◌, ◌⊎◌, inl, inr, refl, List, [], ◌∷◌, Bool, true,
  false, pos, arith, Bool-cases, ltb, leb, ◌==◌, ◌||◌, ◌&&◌, if◌then◌else◌,
}
use sisotp.Libc.Strings.{Bytes}
use sisotp.Libc.Format.Args.{Run, done, no_argument, no_fuel, word_arg, signed, ◌>>=◌}
use sisotp.Libc.Format.Scan.{Spec, process_precision, digits_field, Scanned, scan}

-- The digits of a width end at the byte 0 of the format at the latest.
digits_field-ends :
    (fuel : ℕ) (m : Bytes) (z fmt ch precision : ℕ)
    → m z ≡ 0
    → fmt ≤ z
    → z < fmt + fuel
    → (v f : ℕ) × (digits_field fuel m fmt ch precision ≡ done (v, f)) × (fmt ≤ f) × (f ≤ z)
unfolding digits_field
digits_field-ends zero m z fmt ch precision e a b = absurd (omega arith)
digits_field-ends (suc fuel) m z fmt ch precision e a b =
    elim (Bool-cases (ltb (m fmt) 48 || ltb 57 (m fmt))) [
      | inl t ↦ (precision * 10 + (ch - 48), fmt, rw t, omega arith, omega arith)
      | inr t ↦
          (let next : fmt + 1 ≤ z = ground arith in
            let (v, f, r, l, u) =
              digits_field-ends fuel m z (fmt + 1) (m fmt) (precision * 10 + (ch - 48)) e next
                (omega arith) in
            (v, f, rw t r, omega arith, u))
    ]

-- A scan that ends in front of `z` or at the byte 0.
unfoldable pub Scans : (z fmt : ℕ) → Run Scanned → Type 0
Scans z fmt (done c) = (fmt < c.fmt) × ((c.ch ≡ 0) ⊎ (c.fmt ≤ z))
Scans z fmt no_argument = Unit {0}
Scans z fmt no_fuel = ⊥

Scans-later : (z fmt f : ℕ) (r : Run Scanned) → fmt ≤ f → Scans z f r → Scans z fmt r
unfolding Scans
Scans-later z fmt f (done c) l h = (omega (arith, h.0), h.1)
Scans-later z fmt f no_argument l h = tt
Scans-later z fmt f no_fuel l h = h

Scans-if :
    (z fmt : ℕ) (b : Bool) (r t : Run Scanned)
    → (b ≡ true → Scans z fmt r)
    → (b ≡ false → Scans z fmt t)
    → Scans z fmt (if b then r else t)
Scans-if z fmt true r t h k = h refl
Scans-if z fmt false r t h k = k refl

-- The scan goes on behind the digits of a width, or behind the argument of a '*'.
number_field :
    (fuel : ℕ) (m : Bytes) (z fmt : ℕ) (ap : List ℕ) (s : Spec)
    → m z ≡ 0
    → fmt + 1 ≤ z
    → z < fmt + 1 + fuel
    → ((f : ℕ) (ap' : List ℕ) (s' : Spec)
        → fmt + 1 ≤ f
        → f ≤ z
        → Scans z fmt (scan fuel m f ap' s'))
    → Scans z fmt (
        digits_field fuel m (fmt + 1) (m fmt) 0 >>= λ d.
        scan fuel m d.1 ap (process_precision (record s { precision = pos d.0 })))
number_field fuel m z fmt ap s e a b h =
    let (v, f, r, l, u) = digits_field-ends fuel m z (fmt + 1) (m fmt) 0 e a b in
    rw r (h f ap _ l u)

star_field :
    (fuel : ℕ) (m : Bytes) (z fmt : ℕ) (ap : List ℕ) (s : Spec)
    → ((ap' : List ℕ) (s' : Spec) → Scans z fmt (scan fuel m (fmt + 1) ap' s'))
    → Scans z fmt (
        word_arg ap >>= λ a.
        scan fuel m (fmt + 1) a.1 (process_precision (record s { precision = signed 32 a.0 })))
unfolding Scans
star_field fuel m z fmt [] s h = tt
star_field fuel m z fmt (w ∷ ap) s h = h ap _

scan_ends :
    (m : Bytes) (z fmt : ℕ) (ap : List ℕ) (s : Spec)
    → m z ≡ 0
    → fmt ≤ z
    → Scans z fmt (done (record { ch = m fmt; fmt = fmt + 1; ap = ap; spec = s }))
unfolding Scans
scan_ends m z fmt ap s e a = (omega arith, ground arith)

pub scan-Scans :
    (fuel : ℕ) (m : Bytes) (z fmt : ℕ) (ap : List ℕ) (s : Spec)
    → m z ≡ 0
    → fmt ≤ z
    → z < fmt + fuel
    → Scans z fmt (scan fuel m fmt ap s)
unfolding scan
scan-Scans zero m z fmt ap s e a b = absurd (omega arith)
scan-Scans (suc fuel) m z fmt ap s e a b =
    let on : (s' : Spec) → (fmt ≢ z) → (ap' : List ℕ) → Scans z fmt (scan fuel m (fmt + 1) ap' s') =
      λ s' n ap'.
        Scans-later z fmt (fmt + 1) (scan fuel m (fmt + 1) ap' s') (omega arith)
          (scan-Scans fuel m z (fmt + 1) ap' s' e (omega arith) (omega arith)) in
    Scans-if z fmt (m fmt == 45) _ _ (λ t. on _ (ground arith) ap)
      λ t1.
        Scans-if z fmt (m fmt == 48) _ _ (λ t. on _ (ground arith) ap)
          λ t2.
            Scans-if z fmt (leb 49 (m fmt) && leb (m fmt) 57) _ _
              (λ t. number_field fuel m z fmt ap s e (ground arith) (omega arith) (λ f ap' s' l u.
                Scans-later z fmt f _ (omega arith)
                  (scan-Scans fuel m z f ap' s' e u (omega arith))))
              λ t3.
                Scans-if z fmt (m fmt == 42) _ _
                  (λ t. star_field fuel m z fmt ap s (λ ap' s'. on s' (ground arith) ap'))
                  λ t4.
                    Scans-if z fmt (m fmt == 46) _ _ (λ t. on _ (ground arith) ap)
                      λ t5.
                        Scans-if z fmt (m fmt == 35) _ _ (λ t. on _ (ground arith) ap)
                          λ t6.
                            Scans-if z fmt (m fmt == 108) _ _ (λ t. on _ (ground arith) ap)
                              λ t7. scan_ends m z fmt ap s e a
