-- ===== src/Kern/Start/Woken.antt =====
-- Which processors `boot_aps` wakes.
use mathlib.Core.List.{append_assoc, append-nil}
use sisotp.Base.{
  ℕ, zero, suc, ◌+◌, ◌*◌, ◌/◌, ◌%◌, ◌^◌, ◌≤◌, ◌<◌, ◌≡◌, ◌&&◌, refl, sym, ◌∙◌, ap, List, [], ◌∷◌,
  ◌++◌, Option, none, some, arith, ◌==◌, if◌then◌else◌, bit_or, Bool-cases, inl, inr,
}
use sisotp.Kern.Devices.{Access, write_register, Io, outb, store_short, write_lapic, read_lapic}
use sisotp.Kern.Devices.Lapic.{
  lapicw, icrlo_reg, icrhi_reg, startup_ipi, send_startup, lapic_startap,
}
use sisotp.Kern.Devices.Programmed.{last_written}
use sisotp.Kern.Mpconfig.{Cpus}
use sisotp.Kern.Mpconfig.Bounds.{AreNumbered}
use sisotp.Kern.Mmu.{mpentry_paddr}
use sisotp.Kern.Start.{boot_each, boot_aps}

abbrev destination : Option ℕ → ℕ
destination none = 0
destination (some icrhi) = icrhi / 2 ^ 24

-- The processors that were sent a message to start at the entry code, the newest first: the message
-- is the write of the low half of the command, the receiver stands in the high half.
abbrev pub woken : List Access → List ℕ
woken [] = []
woken (write_register index word ∷ trace) =
    if index == icrlo_reg && word == bit_or startup_ipi 7
    then destination (last_written icrhi_reg trace) ∷ woken trace
    else woken trace
woken (a ∷ trace) = woken trace

-- The other processors from `c` on, each twice, the last first.
abbrev pub others : (rounds self c : ℕ) → List ℕ
others zero self c = []
others (suc rounds) self c = others rounds self (c + 1) ++ (if c == self then [] else c ∷ c ∷ [])

lapic_startap-woken :
    (apicid : ℕ) (s : Io)
    → apicid < 2 ^ 8
    → woken (lapic_startap apicid mpentry_paddr s).1.trace ≡ apicid ∷ apicid ∷ woken s.trace
unfolding lapic_startap send_startup lapicw outb store_short write_lapic read_lapic
lapic_startap-woken apicid s l =
    let id : apicid * 2 ^ 24 % 2 ^ 32 / 2 ^ 24 ≡ apicid = omega arith in
    ap (λ a. a ∷ a ∷ woken s.trace) id

boot_each-woken :
    (rounds : ℕ) (cpus : Cpus) (self c : ℕ) (s : Io)
    → ((i : ℕ) → i < c + rounds → cpus.cpu_id i ≡ i)
    → c + rounds ≤ 8
    → woken (boot_each rounds cpus self c s).1.trace ≡ others rounds self c ++ woken s.trace
unfolding boot_each
boot_each-woken zero cpus self c s n l = refl
boot_each-woken (suc rounds) cpus self c s n l = elim (Bool-cases (c == self)) [
  | inl y ↦
      rw (y, append-nil (others rounds self (c + 1)))
        (boot_each-woken rounds cpus self (c + 1) s (λ i u. n i (omega arith)) (omega arith))
  | inr x ↦
      let t : Io = (lapic_startap (cpus.cpu_id c) mpentry_paddr s).1 in
      let own : cpus.cpu_id c ≡ c = n c (omega arith) in
      let one : woken t.trace ≡ c ∷ c ∷ woken s.trace =
        lapic_startap-woken (cpus.cpu_id c) s (omega arith) ∙ ap (λ a. a ∷ a ∷ woken s.trace) own in
      rw x (
        boot_each-woken rounds cpus self (c + 1) t (λ i u. n i (omega arith)) (omega arith)
        ∙ ap (λ w. others rounds self (c + 1) ++ w) one
        ∙ sym (append_assoc (others rounds self (c + 1)) (c ∷ c ∷ []) (woken s.trace)))
]

-- With the processors numbered as `mp_init` leaves them, `boot_aps` tells each processor but its own
-- twice, in the order of the numbers, to start at the entry code, and no other.
pub boot_aps-woken :
    (cpus : Cpus) (self : ℕ) (s : Io)
    → AreNumbered cpus
    → woken (boot_aps cpus self s).1.trace ≡ others cpus.ncpu self 0 ++ woken s.trace
unfolding boot_aps
boot_aps-woken cpus self s h =
    boot_each-woken cpus.ncpu cpus self 0 s (λ i l. h.numbered i (omega arith))
      (omega (arith, h.few))
