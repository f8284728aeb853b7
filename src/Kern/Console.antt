-- ===== src/Kern/Console.antt =====
-- jos/kern/console.c: the circular buffer of console input. The devices behind it (serial port,
-- keyboard) are the characters that they return before -1.
pub mod Ring
pub mod Keyboard
pub mod Screen
use sisotp.Base.{
  ℕ, zero, suc, ◌+◌, ◌-◌, ◌%◌, List, [], ◌∷◌, Bool, true, false, ◌==◌, if◌then◌else◌, update,
}

abbrev pub consbufsize : ℕ
consbufsize = 512

pub record Cons : Type 0 where
  pub buf : ℕ → ℕ
  pub rpos : ℕ
  pub wpos : ℕ

-- The position after `pos`.
abbrev pub next_pos : ℕ → ℕ
next_pos pos = if pos + 1 == consbufsize then 0 else pos + 1

abbrev pub put : ℕ → Cons → Cons
put c cons = record {
  buf = update cons.buf cons.wpos (c % 256);
  rpos = cons.rpos;
  wpos = next_pos cons.wpos;
}

-- The list has what `proc` returns before -1.
unfoldable pub cons_intr : List ℕ → Cons → Cons
cons_intr [] cons = cons
cons_intr (c ∷ cs) cons = cons_intr cs (if c == 0 then cons else put c cons)

unfoldable pub cons_getc : (serial keyboard : List ℕ) → Cons → ℕ × Cons
cons_getc serial keyboard cons =
    let polled = cons_intr keyboard (cons_intr serial cons) in
    if polled.rpos == polled.wpos
    then (0, polled)
    else (polled.buf polled.rpos, record polled { rpos = next_pos polled.rpos })
