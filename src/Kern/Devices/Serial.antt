-- ===== src/Kern/Devices/Serial.antt =====
-- jos/kern/console.c: the serial and the parallel port at the level of their registers, and the start of
-- the text screen.
use sisotp.Base.{
  ℕ, zero, suc, ◌+◌, ◌*◌, ◌%◌, ◌^◌, Bool, not, ◌==◌, if◌then◌else◌, bit_and, bit_or, Option, none,
  some,
}
use sisotp.Kern.Devices.{Dev, return, ◌>>=◌, ◌>>◌, outb, inb}

abbrev pub com1 : ℕ
com1 = 0x3F8

-- "Stupid I/O delay routine".
unfoldable pub delay : Dev (Unit {0})
unfolding inb
delay = do inb 0x84; inb 0x84; inb 0x84; inb 0x84; return tt

-- The loops `for (i = 0; !(inb(port) & mask) && i < 12800; i++) delay();`, on the rounds left.
unfoldable pub wait_ready : (port mask rounds : ℕ) → Dev (Unit {0})
unfolding inb
wait_ready port mask zero = do inb port; return tt
wait_ready port mask (suc rounds) = do
  status ← inb port
  let rest = (do delay; wait_ready port mask rounds)
  if bit_and status mask == 0 then rest else return tt

-- `serial_putc`.
unfoldable pub serial_send : (c : ℕ) → Dev (Unit {0})
unfolding outb
serial_send c = do wait_ready (com1 + 5) 0x20 12800; outb com1 c

-- `lpt_putc`.
unfoldable pub lpt_send : (c : ℕ) → Dev (Unit {0})
unfolding outb
lpt_send c = do
  wait_ready (0x378 + 1) 0x80 12800
  outb 0x378 c
  outb (0x378 + 2) (bit_or (bit_or 0x08 0x04) 0x01)
  outb (0x378 + 2) 0x08

-- `serial_proc_data`: none stands for -1.
unfoldable pub serial_proc_data : Dev (Option ℕ)
unfolding inb
serial_proc_data = do
  status ← inb (com1 + 5)
  if bit_and status 0x01 == 0 then return none else (do c ← inb com1; return (some c))

-- `serial_init` returns what it sets `serial_exists` to.
unfoldable pub serial_init : Dev Bool
unfolding inb outb
serial_init = do
  outb (com1 + 2) 0
  outb (com1 + 3) 0x80
  outb com1 12
  outb (com1 + 1) 0
  outb (com1 + 3) 0x03
  outb (com1 + 4) 0
  outb (com1 + 1) 0x01
  status ← inb (com1 + 5)
  inb (com1 + 2)
  inb com1
  return (not (status == 0xFF))

-- `cga_init`, where `color` tells that the memory of the colour screen holds what is written to it: the
-- screen memory, `addr_6845` and the cursor.
unfoldable pub cga_init : (color : Bool) → Dev (ℕ × ℕ × ℕ)
unfolding inb outb
cga_init color =
    let addr_6845 : ℕ = if color then 0x3D4 else 0x3B4 in
    let crt_buf : ℕ = if color then 0xF00B8000 else 0xF00B0000 in
    do
      outb addr_6845 14
      high ← inb (addr_6845 + 1)
      outb addr_6845 15
      low ← inb (addr_6845 + 1)
      return (crt_buf, addr_6845, bit_or (high * 2 ^ 8) low % 2 ^ 16)
