-- ===== src/Kern/Console/Keyboard.antt =====
-- jos/kern/console.c: the keyboard driver, from scan codes to characters. The bytes that the status
-- and data ports of the controller return are arguments.
use sisotp.Base.{
  ℕ, zero, suc, ◌+◌, ◌-◌, ◌^◌, List, [], ◌∷◌, Bool, not, ◌&&◌, ◌||◌, Option, none, some, leb, ◌==◌,
  if◌then◌else◌, bit_and, bit_or, bit_xor,
}
use sisotp.Kern.Console.{Cons, cons_intr}

abbrev pub kbs_dib : ℕ
kbs_dib = 0x01

abbrev pub kbs_terr : ℕ
kbs_terr = 0x20

abbrev pub key_home : ℕ
key_home = 0xE0

abbrev pub key_end : ℕ
key_end = 0xE1

abbrev pub key_up : ℕ
key_up = 0xE2

abbrev pub key_dn : ℕ
key_dn = 0xE3

abbrev pub key_lf : ℕ
key_lf = 0xE4

abbrev pub key_rt : ℕ
key_rt = 0xE5

abbrev pub key_pgup : ℕ
key_pgup = 0xE6

abbrev pub key_pgdn : ℕ
key_pgdn = 0xE7

abbrev pub key_ins : ℕ
key_ins = 0xE8

abbrev pub key_del : ℕ
key_del = 0xE9

-- Bits of the variable `shift`.
abbrev pub shift_bit : ℕ
shift_bit = 2 ^ 0

abbrev pub ctl : ℕ
ctl = 2 ^ 1

abbrev pub alt : ℕ
alt = 2 ^ 2

abbrev pub capslock : ℕ
capslock = 2 ^ 3

abbrev pub numlock : ℕ
numlock = 2 ^ 4

abbrev pub scrolllock : ℕ
scrolllock = 2 ^ 5

abbrev pub e0esc : ℕ
e0esc = 2 ^ 6

-- The initialisers of the tables: an array filled from its start, 0 behind it, and single entries.
abbrev pub entry : List ℕ → ℕ → ℕ
entry [] i = 0
entry (x ∷ xs) zero = x
entry (x ∷ xs) (suc i) = entry xs i

abbrev pub entry_at : List (ℕ × ℕ) → (ℕ → ℕ) → ℕ → ℕ
entry_at [] rest i = rest i
entry_at ((j, x) ∷ xs) rest i = if i == j then x else entry_at xs rest i

unfoldable pub shiftcode : ℕ → ℕ
shiftcode =
    entry_at
      ((0x1D, ctl)
        ∷ (0x2A, shift_bit)
        ∷ (0x36, shift_bit)
        ∷ (0x38, alt)
        ∷ (0x9D, ctl)
        ∷ (0xB8, alt)
        ∷ [])
      (λ i. 0)

unfoldable pub togglecode : ℕ → ℕ
togglecode = entry_at ((0x3A, capslock) ∷ (0x45, numlock) ∷ (0x46, scrolllock) ∷ []) (λ i. 0)

-- The keys of the second block, which all maps share.
abbrev pub arrow_keys : List (ℕ × ℕ)
arrow_keys =
    (0xC8, key_up)
    ∷ (0xC9, key_pgup)
    ∷ (0xCB, key_lf)
    ∷ (0xCD, key_rt)
    ∷ (0xCF, key_end)
    ∷ (0xD0, key_dn)
    ∷ (0xD1, key_pgdn)
    ∷ (0xD2, key_ins)
    ∷ (0xD3, key_del)
    ∷ []

abbrev pub pad_keys : List (ℕ × ℕ)
pad_keys = (0xC7, key_home) ∷ (0x9C, 10) ∷ (0xB5, 47) ∷ arrow_keys

abbrev pub normal_keys : List ℕ
normal_keys =
    0 ∷ 27 ∷ 49 ∷ 50 ∷ 51 ∷ 52 ∷ 53 ∷ 54 ∷ 55 ∷ 56 ∷ 57 ∷ 48 ∷ 45 ∷ 61 ∷ 8 ∷ 9 ∷ 113 ∷ 119 ∷ 101
    ∷ 114 ∷ 116 ∷ 121 ∷ 117 ∷ 105 ∷ 111 ∷ 112 ∷ 91 ∷ 93 ∷ 10 ∷ 0 ∷ 97 ∷ 115 ∷ 100 ∷ 102 ∷ 103 ∷ 104
    ∷ 106 ∷ 107 ∷ 108 ∷ 59 ∷ 39 ∷ 96 ∷ 0 ∷ 92 ∷ 122 ∷ 120 ∷ 99 ∷ 118 ∷ 98 ∷ 110 ∷ 109 ∷ 44 ∷ 46 ∷ 47
    ∷ 0 ∷ 42 ∷ 0 ∷ 32 ∷ 0 ∷ 0 ∷ 0 ∷ 0 ∷ 0 ∷ 0 ∷ 0 ∷ 0 ∷ 0 ∷ 0 ∷ 0 ∷ 0 ∷ 0 ∷ 55 ∷ 56 ∷ 57 ∷ 45 ∷ 52
    ∷ 53 ∷ 54 ∷ 43 ∷ 49 ∷ 50 ∷ 51 ∷ 48 ∷ 46 ∷ 0 ∷ 0 ∷ 0 ∷ 0 ∷ []

abbrev pub shift_keys : List ℕ
shift_keys =
    0 ∷ 27 ∷ 33 ∷ 64 ∷ 35 ∷ 36 ∷ 37 ∷ 94 ∷ 38 ∷ 42 ∷ 40 ∷ 41 ∷ 95 ∷ 43 ∷ 8 ∷ 9 ∷ 81 ∷ 87 ∷ 69 ∷ 82
    ∷ 84 ∷ 89 ∷ 85 ∷ 73 ∷ 79 ∷ 80 ∷ 123 ∷ 125 ∷ 10 ∷ 0 ∷ 65 ∷ 83 ∷ 68 ∷ 70 ∷ 71 ∷ 72 ∷ 74 ∷ 75 ∷ 76
    ∷ 58 ∷ 34 ∷ 126 ∷ 0 ∷ 124 ∷ 90 ∷ 88 ∷ 67 ∷ 86 ∷ 66 ∷ 78 ∷ 77 ∷ 60 ∷ 62 ∷ 63 ∷ 0 ∷ 42 ∷ 0 ∷ 32
    ∷ 0 ∷ 0 ∷ 0 ∷ 0 ∷ 0 ∷ 0 ∷ 0 ∷ 0 ∷ 0 ∷ 0 ∷ 0 ∷ 0 ∷ 0 ∷ 55 ∷ 56 ∷ 57 ∷ 45 ∷ 52 ∷ 53 ∷ 54 ∷ 43 ∷ 49
    ∷ 50 ∷ 51 ∷ 48 ∷ 46 ∷ 0 ∷ 0 ∷ 0 ∷ 0 ∷ []

-- `C(x)` is `x - '@'` as a uint8_t.
abbrev pub ctl_keys : List ℕ
ctl_keys =
    0 ∷ 0 ∷ 0 ∷ 0 ∷ 0 ∷ 0 ∷ 0 ∷ 0 ∷ 0 ∷ 0 ∷ 0 ∷ 0 ∷ 0 ∷ 0 ∷ 0 ∷ 0 ∷ 17 ∷ 23 ∷ 5 ∷ 18 ∷ 20 ∷ 25 ∷ 21
    ∷ 9 ∷ 15 ∷ 16 ∷ 0 ∷ 0 ∷ 13 ∷ 0 ∷ 1 ∷ 19 ∷ 4 ∷ 6 ∷ 7 ∷ 8 ∷ 10 ∷ 11 ∷ 12 ∷ 0 ∷ 0 ∷ 0 ∷ 0 ∷ 28 ∷ 26
    ∷ 24 ∷ 3 ∷ 22 ∷ 2 ∷ 14 ∷ 13 ∷ 0 ∷ 0 ∷ 239 ∷ 0 ∷ 0 ∷ []

unfoldable pub normalmap : ℕ → ℕ
normalmap = entry_at pad_keys (entry normal_keys)

unfoldable pub shiftmap : ℕ → ℕ
shiftmap = entry_at pad_keys (entry shift_keys)

unfoldable pub ctlmap : ℕ → ℕ
ctlmap = entry_at ((0x97, key_home) ∷ (0xB5, 239) ∷ arrow_keys) (entry ctl_keys)

-- Indexed with `shift & (CTL | SHIFT)`.
unfoldable pub charcode : ℕ → ℕ → ℕ
charcode i = if i == 0 then normalmap else (if i == 1 then shiftmap else ctlmap)

-- A letter changes its case if caps lock is on.
unfoldable pub swap_case : ℕ → ℕ
swap_case c = if leb 97 c && leb c 122 then c - 32 else (if leb 65 c && leb c 90 then c + 32 else c)

-- The static variable `shift`, and whether the machine was told to reboot.
pub record Kbd : Type 0 where
  pub shift : ℕ
  pub reboots : Bool

-- The end of `kbd_proc_data`, for a make code, with the bit 0x80 set after an escape.
unfoldable pub press : (code shift : ℕ) → Bool → ℕ × Kbd
press code shift reboots =
    let shift' = bit_xor (bit_or shift (shiftcode code)) (togglecode code) in
    let c = charcode (bit_and shift' (ctl + shift_bit)) code in
    let c' = if bit_and shift' capslock == 0 then c else swap_case c in
    (
      c',
      record {
        shift = shift';
        reboots = reboots || (bit_and shift' (ctl + alt) == ctl + alt) && (c' == key_del);
      },
    )

-- The mask `~x` of a uint32_t.
abbrev pub complement : ℕ → ℕ
complement x = 2 ^ 32 - 1 - x

-- A break code: the key was released.
unfoldable pub release : (code : ℕ) → Kbd → Kbd
release code kbd =
    let released = if bit_and kbd.shift e0esc == 0 then bit_and code 0x7F else code in
    record kbd { shift = bit_and kbd.shift (complement (bit_or (shiftcode released) e0esc)) }

unfoldable pub press_key : (code : ℕ) → Kbd → ℕ × Kbd
press_key code kbd =
    if bit_and kbd.shift e0esc == 0
    then press code kbd.shift kbd.reboots
    else press (bit_or code 0x80) (bit_and kbd.shift (complement e0esc)) kbd.reboots

abbrev pub returned : ℕ × Kbd → Option ℕ × Kbd
returned (c, kbd) = (some c, kbd)

-- -1 is none.
unfoldable pub kbd_proc_data : (stat code : ℕ) → Kbd → Option ℕ × Kbd
kbd_proc_data stat code kbd =
    if (bit_and stat kbs_dib == 0) || not (bit_and stat kbs_terr == 0)
    then (none, kbd)
    else (if code == 0xE0
        then (some 0, record kbd { shift = bit_or kbd.shift e0esc })
        else (if not (bit_and code 0x80 == 0)
            then (some 0, release code kbd)
            else returned (press_key code kbd)))

-- One more call of the driver, unless it returned -1.
abbrev pub and_more : Option ℕ × Kbd → (Kbd → List ℕ × Kbd) → List ℕ × Kbd
and_more (none, kbd) rest = ([], kbd)
and_more (some c, kbd) rest = let (cs, kbd') = rest kbd in (c ∷ cs, kbd')

-- The characters until the driver returns -1, from the pairs that the two ports return; behind the
-- list there is no more data.
unfoldable pub kbd_chars : List (ℕ × ℕ) → Kbd → List ℕ × Kbd
kbd_chars [] kbd = ([], kbd)
kbd_chars ((stat, code) ∷ ports) kbd = and_more (kbd_proc_data stat code kbd) (kbd_chars ports)

unfoldable pub kbd_intr : List (ℕ × ℕ) → Kbd → Cons → Kbd × Cons
kbd_intr ports kbd cons = let (cs, kbd') = kbd_chars ports kbd in (kbd', cons_intr cs cons)
