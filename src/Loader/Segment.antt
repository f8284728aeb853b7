-- ===== src/Loader/Segment.antt =====
-- What the boot loader's `readseg` brings from the disk into memory.
use sisotp.Base.{
  ℕ, zero, suc, ◌+◌, ◌-◌, ◌*◌, ◌/◌, ◌%◌, ◌^◌, ◌≤◌, ◌<◌, ◌≡◌, refl, some, arith, Bool-cases, inl,
  inr, ltb, ap, ◌∙◌,
}
use sisotp.Loader.{readsect, readseg_from, readseg, sectsize}

module _ (disk : (sector i : ℕ) → ℕ) where
  -- The sectors up to `end` are in memory from `pa` on, and nothing else has changed.
  record IsRead (m : ℕ → ℕ) (pa end offset : ℕ) (m' : ℕ → ℕ) : Type 0 where
    inside :
        (x : ℕ)
        → pa ≤ x
        → x - x % 512 < end
        → m' x ≡ disk (offset + (x - pa) / 512) ((x - pa) % 512)
    before : (x : ℕ) → x < pa → m' x ≡ m x
    behind : (x : ℕ) → end ≤ x - x % 512 → m' x ≡ m x

  one_more :
      (m m' : ℕ → ℕ) (pa next end offset : ℕ)
      → pa % 512 ≡ 0
      → pa < end
      → next ≡ pa + 512
      → IsRead (readsect disk m pa offset) next end (offset + 1) m'
      → IsRead m pa end offset m'
  unfolding readsect
  one_more m m' pa next end offset a l d r = record {
    inside = λ x u v. elim (Bool-cases (ltb x (pa + 512))) [
      | inl y ↦
          let near : x < pa + 512 = ground arith in
          let q : (x - pa) / 512 ≡ 0 = omega arith in
          let s : (x - pa) % 512 ≡ x - pa = omega arith in rw (q, s) (ground (arith, r.before x))
      | inr n ↦
          let far : pa + 512 ≤ x = ground arith in
          let q : offset + (x - pa) / 512 ≡ offset + 1 + (x - next) / 512 = omega arith in
          let s : (x - pa) % 512 ≡ (x - next) % 512 = omega arith in
          rw (q, s) (r.inside x (omega arith) v)
    ];
    before = λ x u. ground (arith, r.before x);
    behind = λ x u. ground (arith, r.behind x);
  }

  readseg_from-IsRead :
      (fuel : ℕ) (m : ℕ → ℕ) (pa end offset : ℕ)
      → pa % 512 ≡ 0
      → end + 512 ≤ 2 ^ 32
      → pa ≤ end + 511
      → end + 512 ≤ pa + 512 * fuel
      → (m' : ℕ → ℕ) × (readseg_from disk fuel m pa end offset ≡ some m')
        × IsRead m pa end offset m'
  unfolding readseg_from
  readseg_from-IsRead zero m pa end offset a b c f = absurd (omega arith)
  readseg_from-IsRead (suc fuel) m pa end offset a b c f = elim (Bool-cases (ltb pa end)) [
    | inl y ↦
        let more : pa < end = ground arith in
        let w : (pa + sectsize) % 2 ^ 32 ≡ pa + 512 = omega arith in
        let (m', e, r) =
          readseg_from-IsRead fuel (readsect disk m pa offset) ((pa + sectsize) % 2 ^ 32) end
            (offset + 1) (omega arith) b (omega arith) (omega arith) in
        (m', rw y e, one_more m m' pa ((pa + sectsize) % 2 ^ 32) end offset a more w r)
    | inr n ↦
        let over : end ≤ pa = ground arith in
        (
          m,
          rw n refl,
          record {
            inside = λ x u v. absurd (omega arith);
            before = λ x u. refl;
            behind = λ x u. refl;
          },
        )
  ]

  -- `readseg`, for a segment that ends a sector or more below 2 ^ 32, at an address that lies in its
  -- sector of memory as the offset does in its sector of the disk, with fuel for its sectors: it
  -- returns, every byte of the segment is in memory as it is on the disk, whose first sector is not
  -- counted, and memory outside the sectors that the segment touches is unchanged.
  pub readseg-loaded :
      (fuel : ℕ) (m : ℕ → ℕ) (pa count offset : ℕ)
      → pa + count + 512 ≤ 2 ^ 32
      → pa % 512 ≡ offset % 512
      → count + 1024 ≤ 512 * fuel
      → (m' : ℕ → ℕ) × (readseg disk fuel m pa count offset ≡ some m')
        × ((i : ℕ) → i < count → m' (pa + i) ≡ disk (1 + (offset + i) / 512) ((offset + i) % 512))
        × ((x : ℕ) → x < pa - pa % 512 → m' x ≡ m x)
        × ((x : ℕ) → pa + count ≤ x - x % 512 → m' x ≡ m x)
  unfolding readseg
  readseg-loaded fuel m pa count offset b c f =
      let w : (pa + count) % 2 ^ 32 ≡ pa + count = omega arith in
      let (m', e, r) =
        readseg_from-IsRead fuel m (pa - pa % 512) ((pa + count) % 2 ^ 32) (offset / 512 + 1)
          (omega arith) (omega arith) (omega arith) (omega arith) in
      (
        m',
        e,
        λ i l.
            let s : offset / 512 + 1 + (pa + i - (pa - pa % 512)) / 512 ≡ 1 + (offset + i) / 512 =
              omega arith in
            let t : (pa + i - (pa - pa % 512)) % 512 ≡ (offset + i) % 512 = omega arith in
            r.inside (pa + i) (omega arith) (omega arith)
            ∙ ap (λ z. disk z ((pa + i - (pa - pa % 512)) % 512)) s
            ∙ ap (disk (1 + (offset + i) / 512)) t,
        r.before,
        λ x l. r.behind x (omega arith),
      )
