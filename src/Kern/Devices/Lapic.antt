-- ===== src/Kern/Devices/Lapic.antt =====
-- jos/kern/lapic.c: the local interrupt controller of a processor. `lapicaddr` and `lapic` are 0 if the
-- tables of the machine name none; the mapping of its registers by `mmio_map_region` is left out.
use sisotp.Base.{
  ℕ, zero, suc, ◌+◌, ◌*◌, ◌/◌, ◌%◌, ◌^◌, Bool, leb, ◌==◌, if◌then◌else◌, bit_and, bit_or,
}
use sisotp.Kern.Devices.{Dev, return, ◌>>=◌, ◌>>◌, outb, write_lapic, read_lapic, store_short}
use sisotp.Kern.Devices.Picirq.{irq_offset}

-- The registers, as indices of 32-bit words.
abbrev pub id_reg : ℕ
id_reg = 0x20 / 4

abbrev pub ver_reg : ℕ
ver_reg = 0x30 / 4

abbrev pub tpr_reg : ℕ
tpr_reg = 0x80 / 4

abbrev pub eoi_reg : ℕ
eoi_reg = 0xB0 / 4

abbrev pub svr_reg : ℕ
svr_reg = 0xF0 / 4

abbrev pub esr_reg : ℕ
esr_reg = 0x280 / 4

abbrev pub icrlo_reg : ℕ
icrlo_reg = 0x300 / 4

abbrev pub icrhi_reg : ℕ
icrhi_reg = 0x310 / 4

abbrev pub timer_reg : ℕ
timer_reg = 0x320 / 4

abbrev pub pcint_reg : ℕ
pcint_reg = 0x340 / 4

abbrev pub lint0_reg : ℕ
lint0_reg = 0x350 / 4

abbrev pub lint1_reg : ℕ
lint1_reg = 0x360 / 4

abbrev pub error_reg : ℕ
error_reg = 0x370 / 4

abbrev pub ticr_reg : ℕ
ticr_reg = 0x380 / 4

abbrev pub tdcr_reg : ℕ
tdcr_reg = 0x3E0 / 4

-- The bits of the registers.
abbrev pub masked : ℕ
masked = 0x10000

abbrev pub delivs : ℕ
delivs = 0x1000

abbrev pub init_ipi : ℕ
init_ipi = 0x500

abbrev pub startup_ipi : ℕ
startup_ipi = 0x600

abbrev pub level : ℕ
level = 0x8000

unfoldable pub lapicw : (index value_ : ℕ) → Dev (Unit {0})
unfolding write_lapic read_lapic
lapicw index value_ = do write_lapic index value_; read_lapic id_reg; return tt

-- `while(lapic[ICRLO] & DELIVS)`, on fuel: false if it is used up.
unfoldable pub wait_delivered : (fuel : ℕ) → Dev Bool
unfolding read_lapic
wait_delivered zero = return Bool.false
wait_delivered (suc fuel) = do
  icrlo ← read_lapic icrlo_reg
  let rest = wait_delivered fuel
  if bit_and icrlo delivs == 0 then return Bool.true else rest

-- The entry for the performance counter, on controllers that have it.
unfoldable pub mask_pcint : (ver : ℕ) → Dev (Unit {0})
unfolding lapicw
mask_pcint ver = if leb 4 (ver / 2 ^ 16 % 2 ^ 8) then lapicw pcint_reg masked else return tt

-- `lapic_init` up to the wait.
unfoldable pub program_lapic : (is_bootcpu : Bool) → Dev (Unit {0})
unfolding lapicw mask_pcint read_lapic
program_lapic is_bootcpu = do
  lapicw svr_reg (bit_or 0x100 (irq_offset + 7))
  lapicw tdcr_reg 0xB
  lapicw timer_reg (bit_or 0x20000 (irq_offset + 0))
  lapicw ticr_reg 10000000
  if is_bootcpu then return tt else lapicw lint0_reg masked
  lapicw lint1_reg masked
  ver ← read_lapic ver_reg
  mask_pcint ver
  lapicw error_reg (irq_offset + 19)
  lapicw esr_reg 0
  lapicw esr_reg 0
  lapicw eoi_reg 0
  lapicw icrhi_reg 0
  lapicw icrlo_reg (bit_or (bit_or 0x80000 init_ipi) level)

-- Behind the wait; false if the message is not delivered in the fuel.
unfoldable pub enable_lapic : (delivered : Bool) → Dev Bool
unfolding lapicw
enable_lapic delivered =
    if delivered then (do lapicw tpr_reg 0; return Bool.true) else return Bool.false

unfoldable pub lapic_init : (fuel lapicaddr : ℕ) → (is_bootcpu : Bool) → Dev Bool
unfolding program_lapic wait_delivered enable_lapic
lapic_init fuel lapicaddr is_bootcpu =
    if lapicaddr == 0
    then return Bool.true
    else do program_lapic is_bootcpu; delivered ← wait_delivered fuel; enable_lapic delivered

unfoldable pub cpunum : (lapic : Bool) → Dev ℕ
unfolding read_lapic
cpunum lapic = if lapic then (do id ← read_lapic id_reg; return (id / 2 ^ 24)) else return 0

unfoldable pub lapic_eoi : (lapic : Bool) → Dev (Unit {0})
unfolding lapicw
lapic_eoi lapic = if lapic then lapicw eoi_reg 0 else return tt

-- One of the two rounds of the start-up message. `microdelay` does nothing.
unfoldable pub send_startup : (apicid addr : ℕ) → Dev (Unit {0})
unfolding lapicw
send_startup apicid addr = do
  lapicw icrhi_reg (apicid * 2 ^ 24)
  lapicw icrlo_reg (bit_or startup_ipi (addr / 2 ^ 12))

-- The warm reset vector is at 0x40 << 4 | 0x67.
unfoldable pub lapic_startap : (apicid addr : ℕ) → Dev (Unit {0})
unfolding lapicw send_startup outb store_short
lapic_startap apicid addr = do
  outb 0x70 0xF
  outb 0x71 0x0A
  store_short 0x467 0
  store_short 0x469 (addr / 2 ^ 4)
  lapicw icrhi_reg (apicid * 2 ^ 24)
  lapicw icrlo_reg (bit_or (bit_or init_ipi level) 0x4000)
  lapicw icrlo_reg (bit_or init_ipi level)
  send_startup apicid addr
  send_startup apicid addr

unfoldable pub lapic_ipi : (fuel vector : ℕ) → Dev Bool
unfolding lapicw wait_delivered
lapic_ipi fuel vector = do lapicw icrlo_reg (bit_or 0xC0000 vector); wait_delivered fuel
