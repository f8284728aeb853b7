-- ===== src/Kern/Devices/Picirq.antt =====
-- jos/kern/picirq.c: the interrupt controllers 8259A; and `kbd_init` and `cons_init` of
-- jos/kern/console.c, which starts the console devices in their order.
use sisotp.Base.{ℕ, ◌+◌, ◌-◌, ◌/◌, ◌^◌, Bool, true, false, ◌==◌, if◌then◌else◌, bit_and}
use sisotp.Kern.Devices.{Dev, return, ◌>>=◌, ◌>>◌, outb}
use sisotp.Kern.Devices.Serial.{cga_init, serial_init}

abbrev pub io_pic1 : ℕ
io_pic1 = 0x20

abbrev pub io_pic2 : ℕ
io_pic2 = 0xA0

abbrev pub irq_slave : ℕ
irq_slave = 2

abbrev pub irq_offset : ℕ
irq_offset = 32

abbrev pub irq_kbd : ℕ
irq_kbd = 1

-- `irq_mask_8259A` and `didinit`.
pub record Pic : Type 0 where
  pub irq_mask_8259a : ℕ
  pub didinit : Bool

-- As the two variables are defined.
abbrev pub reset_pic : Pic
reset_pic = record { irq_mask_8259a = 0xFFFF - 2 ^ irq_slave; didinit = false }

-- The enabled interrupts are only printed.
unfoldable pub irq_setmask_8259a : (mask : ℕ) → Pic → Dev Pic
unfolding outb
irq_setmask_8259a mask p =
    let p' = record p { irq_mask_8259a = mask } in
    if p.didinit
    then (do outb (io_pic1 + 1) mask; outb (io_pic2 + 1) (mask / 2 ^ 8); return p')
    else return p'

unfoldable pub pic_init : Pic → Dev Pic
unfolding outb irq_setmask_8259a
pic_init p = do
  outb (io_pic1 + 1) 0xFF
  outb (io_pic2 + 1) 0xFF
  outb io_pic1 0x11
  outb (io_pic1 + 1) irq_offset
  outb (io_pic1 + 1) (2 ^ irq_slave)
  outb (io_pic1 + 1) 0x3
  outb io_pic2 0x11
  outb (io_pic2 + 1) (irq_offset + 8)
  outb (io_pic2 + 1) irq_slave
  outb (io_pic2 + 1) 0x01
  outb io_pic1 0x68
  outb io_pic1 0x0a
  outb io_pic2 0x68
  outb io_pic2 0x0a
  if p.irq_mask_8259a == 0xFFFF
      then return (record p { didinit = true })
      else irq_setmask_8259a p.irq_mask_8259a (record p { didinit = true })

-- `kbd_init`, behind `kbd_intr`, which takes what the keyboard has.
unfoldable pub kbd_init : (kbd_intr : Dev (Unit {0})) → Pic → Dev Pic
unfolding irq_setmask_8259a
kbd_init kbd_intr p = do
  kbd_intr
  irq_setmask_8259a (bit_and p.irq_mask_8259a (0xFFFF - 2 ^ irq_kbd)) p

-- What `cons_init` leaves: the screen as `cga_init` finds it, the masks, and `serial_exists`.
unfoldable pub cons_init :
    (color : Bool) → (kbd_intr : Dev (Unit {0})) → Pic → Dev ((ℕ × ℕ × ℕ) × Pic × Bool)
unfolding cga_init kbd_init serial_init
cons_init color kbd_intr p = do
  screen ← cga_init color
  masks ← kbd_init kbd_intr p
  serial_exists ← serial_init
  return (screen, masks, serial_exists)
