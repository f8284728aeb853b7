-- ===== src/Kern/Console/Screen.antt =====
-- jos/kern/console.c: output to the text screen, the serial line and the parallel port. The waits
-- for a device to be ready end after a number of rounds and change nothing; they are left out.
pub mod Bounds
use sisotp.Base.{
  ℕ, zero, suc, ◌+◌, ◌-◌, ◌*◌, ◌/◌, ◌%◌, ◌^◌, List, [], ◌∷◌, Bool, true, false, ltb, leb, ◌==◌,
  ◌&&◌, if◌then◌else◌, update, bit_or,
}

abbrev pub crt_cols : ℕ
crt_cols = 80

abbrev pub crt_rows : ℕ
crt_rows = 25

abbrev pub crt_size : ℕ
crt_size = crt_rows * crt_cols

-- The screen memory, the cursor, and the bytes sent on the two lines, the newest first.
pub record Screen : Type 0 where
  pub crt_buf : ℕ → ℕ
  pub crt_pos : ℕ
  pub serial : List ℕ
  pub parallel : List ℕ

unfoldable pub serial_putc : (c : ℕ) → Screen → Screen
serial_putc c s = record s { serial = c % 256 ∷ s.serial }

unfoldable pub lpt_putc : (c : ℕ) → Screen → Screen
lpt_putc c s = record s { parallel = c % 256 ∷ s.parallel }

-- "if no attribute given, then use black on white"; `c` is the bit pattern of an int.
unfoldable pub with_attribute : ℕ → ℕ
with_attribute c = if c / 256 == 0 then bit_or c 0x0700 else c

-- The cases of the switch other than '\t'. A cell and the cursor are 16 bits wide.
unfoldable pub put_cell : (c : ℕ) → Screen → Screen
put_cell c s =
    if c % 256 == 8
    then (if ltb 0 s.crt_pos
        then record s {
          crt_pos = s.crt_pos - 1;
          crt_buf = update s.crt_buf (s.crt_pos - 1) (bit_or (c - c % 256) 32 % 2 ^ 16);
        }
        else s)
    else (if c % 256 == 10
        then record s {
          crt_pos = (s.crt_pos + crt_cols) % 2 ^ 16 - (s.crt_pos + crt_cols) % 2 ^ 16 % crt_cols;
        }
        else (if c % 256 == 13
            then record s { crt_pos = s.crt_pos - s.crt_pos % crt_cols }
            else record s {
              crt_buf = update s.crt_buf s.crt_pos (c % 2 ^ 16);
              crt_pos = (s.crt_pos + 1) % 2 ^ 16;
            }))

-- "What is the purpose of this?": a full screen moves up by a row.
unfoldable pub scroll : Screen → Screen
scroll s =
    if leb crt_size s.crt_pos
    then record s {
      crt_buf = λ i.
          if ltb i (crt_size - crt_cols)
          then s.crt_buf (i + crt_cols)
          else (if ltb i crt_size then bit_or 0x0700 32 else s.crt_buf i);
      crt_pos = s.crt_pos - crt_cols;
    }
    else s

-- `cga_putc` and `cons_putc` of a character other than a tab.
unfoldable pub cga_putc_plain : (c : ℕ) → Screen → Screen
cga_putc_plain c s = scroll (put_cell (with_attribute c) s)

unfoldable pub cons_putc_plain : (c : ℕ) → Screen → Screen
cons_putc_plain c s = cga_putc_plain c (lpt_putc c (serial_putc c s))

-- A tab is five blanks, to all devices.
unfoldable pub cga_putc : (c : ℕ) → Screen → Screen
cga_putc c s =
    if with_attribute c % 256 == 9
    then scroll (
        cons_putc_plain 32
          (cons_putc_plain 32 (cons_putc_plain 32 (cons_putc_plain 32 (cons_putc_plain 32 s)))))
    else cga_putc_plain c s

unfoldable pub cons_putc : (c : ℕ) → Screen → Screen
cons_putc c s = cga_putc c (lpt_putc c (serial_putc c s))

unfoldable pub cputchar : (c : ℕ) → Screen → Screen
cputchar = cons_putc

-- A text, a character at a time.
unfoldable pub cputs : List ℕ → Screen → Screen
cputs [] s = s
cputs (c ∷ cs) s = cputs cs (cputchar c s)
