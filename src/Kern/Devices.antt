-- ===== src/Kern/Devices.antt =====
-- Port and register accesses of the device drivers: what the processor reads from the devices is
-- a sequence of values, and each access is recorded, the newest first.
pub mod Serial
pub mod Picirq
pub mod Kclock
pub mod Lapic
pub mod Programmed
pub mod Sent
use sisotp.Base.{ℕ, zero, suc, ◌%◌, ◌^◌, List, [], ◌∷◌}

pub data Access : Type 0 where
  -- a port and the byte written or read
  out_byte in_byte : (port byte : ℕ) → Access
  -- a register of the local APIC, by its index, and the word
  write_register read_register : (index word : ℕ) → Access
  -- an address of physical memory and the 16 bits written to it
  write_short : (address short : ℕ) → Access

pub record Io : Type 0 where
  pub reads : ℕ → ℕ
  pub done : ℕ
  pub trace : List Access

abbrev pub Dev : Type 0 → Type 0
Dev A = Io → A × Io

abbrev pub return : {A : Type 0} → A → Dev A
return a s = (a, s)

module _ {A B : Type 0} where
  infixl 5 ◌>>=◌ ◌>>◌
  abbrev pub ◌>>=◌ : Dev A → (A → Dev B) → Dev B
  m >>= f = λ s. f (m s).0 (m s).1

  abbrev pub ◌>>◌ : Dev A → Dev B → Dev B
  m >> n = m >>= λ _. n

-- `outb`: the data is a uint8_t.
unfoldable pub outb : (port value_ : ℕ) → Dev (Unit {0})
outb port value_ s = (tt, record s { trace = out_byte port (value_ % 256) ∷ s.trace })

unfoldable pub inb : (port : ℕ) → Dev ℕ
inb port s =
    let byte = s.reads s.done % 256 in
    (byte, record s { done = suc s.done; trace = in_byte port byte ∷ s.trace })

-- `lapic[index]`, written and read.
unfoldable pub write_lapic : (index value_ : ℕ) → Dev (Unit {0})
write_lapic index value_ s =
    (tt, record s { trace = write_register index (value_ % 2 ^ 32) ∷ s.trace })

unfoldable pub read_lapic : (index : ℕ) → Dev ℕ
read_lapic index s =
    let word = s.reads s.done % 2 ^ 32 in
    (word, record s { done = suc s.done; trace = read_register index word ∷ s.trace })

unfoldable pub store_short : (address value_ : ℕ) → Dev (Unit {0})
store_short address value_ s =
    (tt, record s { trace = write_short address (value_ % 2 ^ 16) ∷ s.trace })
