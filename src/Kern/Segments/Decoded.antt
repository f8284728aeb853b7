-- ===== src/Kern/Segments/Decoded.antt =====
-- The descriptors as the processor reads them.
use sisotp.Base.{
  ℕ, ◌+◌, ◌-◌, ◌*◌, ◌/◌, ◌%◌, ◌^◌, ◌≤◌, ◌<◌, ◌≡◌, ◌≢◌, refl, sym, ◌∙◌, arith, ◌==◌, if◌then◌else◌,
  ==-refl, update_ne,
}
use sisotp.Kern.Mmu.{kstacktop, kstksize, kstkgap}
use sisotp.Kern.Segments.{
  Segdesc, seg, seg16, gd_kd, gd_tss0, sts_t32a, taskstate_size, PerCpu, trap_init_percpu,
}

-- The first address of a segment.
abbrev pub base_of : Segdesc → ℕ
base_of d = d.sd_base_15_0 + d.sd_base_23_16 * 2 ^ 16 + d.sd_base_31_24 * 2 ^ 24

-- The last offset in a segment, which counts pages of 4 KB if the granularity bit is set.
abbrev pub limit_of : Segdesc → ℕ
limit_of d =
    let limit = d.sd_lim_15_0 + d.sd_lim_19_16 * 2 ^ 16 in
    if d.sd_g == 1 then limit * 2 ^ 12 + 4095 else limit

-- SEG and SEG16 encode their arguments: the processor reads the base and the limit back, the limit
-- of SEG up to the end of its page.
seg-decoded :
    (type base lim dpl : ℕ)
    → base < 2 ^ 32
    → lim < 2 ^ 32
    → (base_of (seg type base lim dpl) ≡ base)
      × (limit_of (seg type base lim dpl) ≡ lim - lim % 2 ^ 12 + 4095)
      × (base_of (seg16 type base lim dpl) ≡ base)
      × (lim < 2 ^ 20 → limit_of (seg16 type base lim dpl) ≡ lim)
unfolding seg seg16
seg-decoded type base lim dpl b l = (omega arith, omega arith, omega arith, λ s. omega arith)

-- The descriptor of the task state of processor `cpu_id`.
pub record IsTaskSegment (cpu_ts : ℕ) (d : Segdesc) : Type 0 where
  pub present : d.sd_p ≡ 1
  pub system : d.sd_s ≡ 0
  pub kind : d.sd_type ≡ sts_t32a
  pub base : base_of d ≡ cpu_ts
  pub limit : limit_of d ≡ taskstate_size - 1

-- `trap_init_percpu` on one of the eight processors: the task register names a descriptor of its
-- own, which leads to its task state, and the other descriptors stay. A trap from user mode
-- switches to the data segment of the kernel and to the top of the stack of this processor: that of
-- processor 0 is KSTACKTOP, and that of the next one lies a stack and a gap below. Between the stacks of
-- two processors there is a gap.
pub trap_init_percpu-own :
    (cpu_id cpu_ts other other_ts : ℕ) (c c' : PerCpu)
    → cpu_id < 8
    → other < 8
    → cpu_ts < 2 ^ 32
    → let done = trap_init_percpu cpu_id cpu_ts c in
      let theirs = trap_init_percpu other other_ts c' in
      IsTaskSegment cpu_ts (done.table (done.task_register / 8))
      × ((i : ℕ) → i ≢ done.task_register / 8 → done.table i ≡ c.table i)
      × (done.ts.ts_ss0 ≡ gd_kd)
      × (done.ts.ts_esp0 + cpu_id * (kstksize + kstkgap) ≡ kstacktop)
      × (other < cpu_id → done.ts.ts_esp0 + kstkgap ≤ theirs.ts.ts_esp0 - kstksize)
      × (other ≢ cpu_id → theirs.task_register ≢ done.task_register)
unfolding trap_init_percpu seg16
trap_init_percpu-own cpu_id cpu_ts other other_ts c c' h g l =
    let slot : (gd_tss0 + cpu_id * 8) / 8 ≡ gd_tss0 / 8 + cpu_id = omega arith in
    (
      rw (slot, ==-refl (gd_tss0 / 8 + cpu_id))
          (record { present = refl; system = refl; kind = refl; base = omega arith; limit = refl }),
      λ i n. update_ne c.table (gd_tss0 / 8 + cpu_id) _ (λ q. n (q ∙ sym slot)),
      refl,
      omega arith,
      λ l. omega arith,
      λ n. ground arith,
    )
