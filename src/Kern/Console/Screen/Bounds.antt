-- ===== src/Kern/Console/Screen/Bounds.antt =====
-- jos/kern/console.c: the cursor and the cells that output touches.
use sisotp.Base.{ℕ, ◌+◌, ◌%◌, ◌≤◌, ◌<◌, ◌≡◌, List, [], ◌∷◌, arith, Bool-cases, ◌==◌, inl, inr}
use sisotp.Kern.Console.Screen.{
  Screen, crt_size, crt_cols, serial_putc, lpt_putc, with_attribute, put_cell, scroll,
  cga_putc_plain, cons_putc_plain, cga_putc, cons_putc, cputchar, cputs,
}

-- The cursor is on the screen, and no cell outside the screen has changed since `from`.
pub record IsOnScreen (from s : Screen) : Type 0 where
  pub cursor : s.crt_pos < crt_size
  pub outside : (i : ℕ) → crt_size ≤ i → s.crt_buf i ≡ from.crt_buf i

-- Between `put_cell` and `scroll` the cursor may stand one row below.
record IsNear (from s : Screen) : Type 0 where
  cursor : s.crt_pos < crt_size + crt_cols
  outside : (i : ℕ) → crt_size ≤ i → s.crt_buf i ≡ from.crt_buf i

put_cell-IsNear : (from s : Screen) (c : ℕ) → IsOnScreen from s → IsNear from (put_cell c s)
unfolding put_cell
put_cell-IsNear from s c h = record {
  cursor = ground (arith, h.cursor);
  outside = λ i l. ground (arith, h.cursor, h.outside i);
}

scroll-IsOnScreen : (from s : Screen) → IsNear from s → IsOnScreen from (scroll s)
unfolding scroll
scroll-IsOnScreen from s h = record {
  cursor = ground (arith, h.cursor);
  outside = λ i l. ground (arith, h.outside i);
}

cga_putc_plain-IsOnScreen :
    (from s : Screen) (c : ℕ) → IsOnScreen from s → IsOnScreen from (cga_putc_plain c s)
unfolding cga_putc_plain
cga_putc_plain-IsOnScreen from s c h =
    scroll-IsOnScreen from _ (put_cell-IsNear from s (with_attribute c) h)

-- The other devices leave the screen alone.
lines-IsOnScreen :
    (from s : Screen) (c : ℕ) → IsOnScreen from s → IsOnScreen from (lpt_putc c (serial_putc c s))
unfolding lpt_putc serial_putc
lines-IsOnScreen from s c h = record { cursor = h.cursor; outside = h.outside }

cons_putc_plain-IsOnScreen :
    (from s : Screen) (c : ℕ) → IsOnScreen from s → IsOnScreen from (cons_putc_plain c s)
unfolding cons_putc_plain
cons_putc_plain-IsOnScreen from s c h =
    cga_putc_plain-IsOnScreen from _ c (lines-IsOnScreen from s c h)

IsOnScreen-IsNear : (from s : Screen) → IsOnScreen from s → IsNear from s
IsOnScreen-IsNear from s h = record { cursor = omega (arith, h.cursor); outside = h.outside }

cga_putc-IsOnScreen : (from s : Screen) (c : ℕ) → IsOnScreen from s → IsOnScreen from (cga_putc c s)
unfolding cga_putc
cga_putc-IsOnScreen from s c h =
    let blank : (t : Screen) → IsOnScreen from t → IsOnScreen from (cons_putc_plain 32 t) =
      λ t. cons_putc_plain-IsOnScreen from t 32 in
    elim (Bool-cases (with_attribute c % 256 == 9)) [
      | inl e ↦ rw e (
          scroll-IsOnScreen from _
            (IsOnScreen-IsNear from _ (blank _ (blank _ (blank _ (blank _ (blank s h)))))))
      | inr e ↦ rw e (cga_putc_plain-IsOnScreen from s c h)
    ]

-- Whatever text is put on a screen with the cursor inside, with tabs, backspaces and line ends in
-- any order, the cursor stays inside, and no memory outside of the screen is written.
pub cputs-IsOnScreen :
    (cs : List ℕ) (from s : Screen) → IsOnScreen from s → IsOnScreen from (cputs cs s)
unfolding cputs cputchar cons_putc
cputs-IsOnScreen [] from s h = h
cputs-IsOnScreen (c ∷ cs) from s h =
    cputs-IsOnScreen cs from _ (cga_putc-IsOnScreen from _ c (lines-IsOnScreen from s c h))
