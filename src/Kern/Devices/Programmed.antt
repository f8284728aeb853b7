-- ===== src/Kern/Devices/Programmed.antt =====
-- What the interrupt controllers are left programmed with.
use sisotp.Base.{
  ℕ, ◌-◌, ◌/◌, ◌%◌, ◌^◌, ◌<◌, ◌≡◌, ◌≢◌, inl, inr, refl, ◌∙◌, Bool-cases, zero, suc, Bool, true,
  false, ◌&&◌, List, [], ◌∷◌, Option, none, some, arith, ◌==◌, if◌then◌else◌, bit_and, leb,
}
use sisotp.Kern.Devices.{Access, out_byte, write_register, Io, Dev, outb, write_lapic, read_lapic}
use sisotp.Kern.Devices.Picirq.{Pic, reset_pic, irq_setmask_8259a, pic_init, kbd_init, cons_init}
use sisotp.Kern.Devices.Lapic.{
  lapicw, wait_delivered, program_lapic, enable_lapic, lapic_init, masked, mask_pcint, pcint_reg,
  delivs, icrlo_reg, svr_reg, timer_reg, lint0_reg, lint1_reg, tpr_reg,
}

-- The byte that a port was last written, and the word that a register was last written.
abbrev last_out : (port : ℕ) → List Access → Option ℕ
last_out port [] = none
last_out port (out_byte p byte ∷ trace) = if p == port then some byte else last_out port trace
last_out port (a ∷ trace) = last_out port trace

abbrev pub last_written : (index : ℕ) → List Access → Option ℕ
last_written index [] = none
last_written index (write_register i word ∷ trace) =
    if i == index then some word else last_written index trace
last_written index (a ∷ trace) = last_written index trace

-- The masks of the two controllers are those of `mask`.
record IsMasked (mask : ℕ) (trace : List Access) : Type 0 where
  master : last_out 0x21 trace ≡ some (mask % 2 ^ 8)
  slave : last_out 0xA1 trace ≡ some (mask / 2 ^ 8)

-- The start of the controllers programs the mask that was set before, if that masks not
-- everything, and every later change of the mask is programmed at once.
pic_init-IsMasked :
    (p : Pic) (mask : ℕ) (s s' : Io)
    → p.irq_mask_8259a < 0xFFFF
    → mask < 2 ^ 16
    → IsMasked p.irq_mask_8259a (pic_init p s).1.trace
      × ((pic_init p s).0 ≡ record { irq_mask_8259a = p.irq_mask_8259a; didinit = true })
      × IsMasked mask (irq_setmask_8259a mask (pic_init p s).0 s').1.trace
unfolding pic_init irq_setmask_8259a outb
pic_init-IsMasked p mask s s' h l =
    let some_on : (p.irq_mask_8259a == 0xFFFF) ≡ false = ground arith in
    rw some_on (
      record { master = refl; slave = ground arith },
      refl,
      record { master = refl; slave = ground arith },
    )

-- The boot: `cons_init` and, later, `pic_init`, whatever the devices say and the keyboard has: of the
-- interrupts, that of the keyboard, 1, and that of the second controller, 2, are not masked.
cons_init-pic_init :
    (color : Bool) (kbd_intr : Dev (Unit {0})) (s s' : Io)
    → IsMasked
        (2 ^ 16 - 1 - 2 ^ 1 - 2 ^ 2)
        (pic_init (cons_init color kbd_intr reset_pic s).0.1 s').1.trace
unfolding cons_init kbd_init pic_init irq_setmask_8259a outb
cons_init-pic_init color kbd_intr s s' = record { master = refl; slave = refl }

lapicw-last :
    (i j v : ℕ) (s : Io)
    → last_written i (lapicw j v s).1.trace
      ≡ (if j == i then some (v % 2 ^ 32) else last_written i s.trace)
unfolding lapicw write_lapic read_lapic
lapicw-last i j v s = refl

read_lapic-last :
    (i j : ℕ) (s : Io) → last_written i (read_lapic j s).1.trace ≡ last_written i s.trace
unfolding read_lapic
read_lapic-last i j s = refl

wait_delivered-last :
    (i fuel : ℕ) (s : Io) → last_written i (wait_delivered fuel s).1.trace ≡ last_written i s.trace
unfolding wait_delivered read_lapic
wait_delivered-last i zero s = refl
wait_delivered-last i (suc fuel) s =
    elim (Bool-cases (bit_and (s.reads s.done % 2 ^ 32) delivs == 0)) [
      | inl y ↦ rw y refl
      | inr n ↦ rw n (wait_delivered-last i fuel (read_lapic icrlo_reg s).1)
    ]

-- The end does not write a register other than the priority.
enable_lapic-last :
    (b : Bool) (i : ℕ) (s : Io)
    → (tpr_reg == i) ≡ false
    → last_written i (enable_lapic b s).1.trace ≡ last_written i s.trace
unfolding enable_lapic
enable_lapic-last true i s n = lapicw-last i tpr_reg 0 s ∙ rw n refl
enable_lapic-last false i s n = refl

enable_lapic-priority :
    (b : Bool) (s : Io)
    → (enable_lapic b s).0 ≡ true
    → last_written tpr_reg (enable_lapic b s).1.trace ≡ some 0
unfolding enable_lapic
enable_lapic-priority true s e = lapicw-last tpr_reg tpr_reg 0 s
enable_lapic-priority false s e = cc

abbrev Programmed : (b : Bool) → (before after : List Access) → Type 0
Programmed b before after =
    (last_written svr_reg after ≡ some 0x127)
    × (last_written timer_reg after ≡ some 0x20020)
    × (last_written lint0_reg after ≡ (if b then last_written lint0_reg before else some masked))
    × (last_written lint1_reg after ≡ some masked)

mask_pcint-last :
    (i ver : ℕ) (s : Io)
    → last_written i (mask_pcint ver s).1.trace ≡ (
        if pcint_reg == i && leb 4 (ver / 2 ^ 16 % 2 ^ 8)
        then some masked
        else last_written i s.trace)
unfolding mask_pcint
mask_pcint-last i ver s = elim (Bool-cases (leb 4 (ver / 2 ^ 16 % 2 ^ 8))) [
  | inl y ↦ rw y (lapicw-last i pcint_reg masked s ∙ ground arith)
  | inr n ↦ rw n (ground arith)
]

program_lapic-Programmed : (b : Bool) (s : Io) → Programmed b s.trace (program_lapic b s).1.trace
unfolding program_lapic
program_lapic-Programmed true s = (
  simp (lapicw-last, mask_pcint-last),
  simp (lapicw-last, mask_pcint-last),
  simp (lapicw-last, mask_pcint-last),
  simp (lapicw-last, mask_pcint-last),
)
program_lapic-Programmed false s = (
  simp (lapicw-last, mask_pcint-last),
  simp (lapicw-last, mask_pcint-last),
  simp (lapicw-last, mask_pcint-last),
  simp (lapicw-last, mask_pcint-last),
)

-- `lapic_init` of a controller that the tables name, if its message is delivered within the fuel: the
-- controller is on, its spurious interrupt is the vector 39, its clock the vector 32, over and over.
-- The line of the old controllers is masked but for the processor of the boot, where it is left as
-- it was, the other line always, and no priority is held back.
lapic_init-Programmed :
    (fuel lapicaddr : ℕ) (b : Bool) (s : Io)
    → lapicaddr ≢ 0
    → (lapic_init fuel lapicaddr b s).0 ≡ true
    → Programmed b s.trace (lapic_init fuel lapicaddr b s).1.trace
      × (last_written tpr_reg (lapic_init fuel lapicaddr b s).1.trace ≡ some 0)
unfolding lapic_init
lapic_init-Programmed fuel lapicaddr b s h e =
    let named : (lapicaddr == 0) ≡ false = ground arith in
    let t : Io = (wait_delivered fuel (program_lapic b s).1).1 in
    let p = program_lapic-Programmed b s in
    let keep = λ (d : Bool) (i : ℕ) (n : (tpr_reg == i) ≡ false).
      enable_lapic-last d i t n ∙ wait_delivered-last i fuel (program_lapic b s).1 in
    rw named (
      (
        keep _ svr_reg refl ∙ p.0,
        keep _ timer_reg refl ∙ p.1,
        keep _ lint0_reg refl ∙ p.2,
        keep _ lint1_reg refl ∙ p.3,
      ),
      enable_lapic-priority _ t (rw named at e),
    )
