-- ===== src/Kern/Segments.antt =====
-- jos/inc/mmu.h and jos/kern/env.c: segment descriptors and the global descriptor table; and
-- `trap_init_percpu` of jos/kern/trap.c, which gives each processor its task state segment.
pub mod Decoded
use sisotp.Base.{ℕ, ◌+◌, ◌-◌, ◌*◌, ◌/◌, ◌%◌, ◌^◌, ◌==◌, if◌then◌else◌, update, bit_or}
use sisotp.Kern.Mmu.{kstacktop, kstksize, kstkgap}

pub record Segdesc : Type 0 where
  pub sd_lim_15_0 : ℕ
  pub sd_base_15_0 : ℕ
  pub sd_base_23_16 : ℕ
  pub sd_type : ℕ
  pub sd_s : ℕ
  pub sd_dpl : ℕ
  pub sd_p : ℕ
  pub sd_lim_19_16 : ℕ
  pub sd_avl : ℕ
  pub sd_rsv1 : ℕ
  pub sd_db : ℕ
  pub sd_g : ℕ
  pub sd_base_31_24 : ℕ

unfoldable pub seg_null : Segdesc
seg_null = record {
  sd_lim_15_0 = 0;
  sd_base_15_0 = 0;
  sd_base_23_16 = 0;
  sd_type = 0;
  sd_s = 0;
  sd_dpl = 0;
  sd_p = 0;
  sd_lim_19_16 = 0;
  sd_avl = 0;
  sd_rsv1 = 0;
  sd_db = 0;
  sd_g = 0;
  sd_base_31_24 = 0;
}

-- "Segment that is loadable but faults when used".
unfoldable pub seg_fault : Segdesc
seg_fault = record {
  sd_lim_15_0 = 0;
  sd_base_15_0 = 0;
  sd_base_23_16 = 0;
  sd_type = 0;
  sd_s = 1;
  sd_dpl = 0;
  sd_p = 1;
  sd_lim_19_16 = 0;
  sd_avl = 0;
  sd_rsv1 = 0;
  sd_db = 1;
  sd_g = 0;
  sd_base_31_24 = 0;
}

-- SEG. The initializer of a bit field keeps its lowest bits.
unfoldable pub seg : (type base lim dpl : ℕ) → Segdesc
seg type base lim dpl = record {
  sd_lim_15_0 = lim / 2 ^ 12 % 2 ^ 16;
  sd_base_15_0 = base % 2 ^ 16;
  sd_base_23_16 = base / 2 ^ 16 % 2 ^ 8;
  sd_type = type % 2 ^ 4;
  sd_s = 1;
  sd_dpl = dpl % 2 ^ 2;
  sd_p = 1;
  sd_lim_19_16 = lim % 2 ^ 32 / 2 ^ 28;
  sd_avl = 0;
  sd_rsv1 = 0;
  sd_db = 1;
  sd_g = 1;
  sd_base_31_24 = base % 2 ^ 32 / 2 ^ 24;
}

-- SEG16.
unfoldable pub seg16 : (type base lim dpl : ℕ) → Segdesc
seg16 type base lim dpl = record {
  sd_lim_15_0 = lim % 2 ^ 16;
  sd_base_15_0 = base % 2 ^ 16;
  sd_base_23_16 = base / 2 ^ 16 % 2 ^ 8;
  sd_type = type % 2 ^ 4;
  sd_s = 1;
  sd_dpl = dpl % 2 ^ 2;
  sd_p = 1;
  sd_lim_19_16 = lim % 2 ^ 32 / 2 ^ 16 % 2 ^ 4;
  sd_avl = 0;
  sd_rsv1 = 0;
  sd_db = 1;
  sd_g = 0;
  sd_base_31_24 = base % 2 ^ 32 / 2 ^ 24;
}

-- The selectors GD_KT, GD_KD, GD_UT, GD_UD and GD_TSS0.
abbrev pub gd_kt : ℕ
gd_kt = 0x08

abbrev pub gd_kd : ℕ
gd_kd = 0x10

abbrev pub gd_ut : ℕ
gd_ut = 0x18

abbrev pub gd_ud : ℕ
gd_ud = 0x20

abbrev pub gd_tss0 : ℕ
gd_tss0 = 0x28

-- STA_X, STA_W, STA_R and STS_T32A.
abbrev pub sta_x : ℕ
sta_x = 0x8

abbrev pub sta_w : ℕ
sta_w = 0x2

abbrev pub sta_r : ℕ
sta_r = 0x2

abbrev pub sts_t32a : ℕ
sts_t32a = 0x9

-- As the table is defined; the slots for the processors are null.
unfoldable pub gdt : ℕ → Segdesc
unfolding seg seg_null
gdt i =
    if i == gd_kt / 8
    then seg (bit_or sta_x sta_r) 0x0 0xffffffff 0
    else (if i == gd_kd / 8
        then seg sta_w 0x0 0xffffffff 0
        else (if i == gd_ut / 8
            then seg (bit_or sta_x sta_r) 0x0 0xffffffff 3
            else (if i == gd_ud / 8 then seg sta_w 0x0 0xffffffff 3 else seg_null)))

-- struct Taskstate but for the paddings.
pub record Taskstate : Type 0 where
  pub ts_link : ℕ
  pub ts_esp0 : ℕ
  pub ts_ss0 : ℕ
  pub ts_esp1 : ℕ
  pub ts_ss1 : ℕ
  pub ts_esp2 : ℕ
  pub ts_ss2 : ℕ
  pub ts_cr3 : ℕ
  pub ts_eip : ℕ
  pub ts_eflags : ℕ
  pub ts_eax : ℕ
  pub ts_ecx : ℕ
  pub ts_edx : ℕ
  pub ts_ebx : ℕ
  pub ts_esp : ℕ
  pub ts_ebp : ℕ
  pub ts_esi : ℕ
  pub ts_edi : ℕ
  pub ts_es : ℕ
  pub ts_cs : ℕ
  pub ts_ss : ℕ
  pub ts_ds : ℕ
  pub ts_fs : ℕ
  pub ts_gs : ℕ
  pub ts_ldt : ℕ
  pub ts_t : ℕ
  pub ts_iomb : ℕ

-- sizeof(struct Taskstate).
abbrev pub taskstate_size : ℕ
taskstate_size = 104

-- The task state of processor `cpu_id`, at the address `cpu_ts`, and the table; the task register is
-- loaded with the selector.
pub record PerCpu : Type 0 where
  pub ts : Taskstate
  pub table : ℕ → Segdesc
  pub task_register : ℕ

unfoldable pub trap_init_percpu : (cpu_id cpu_ts : ℕ) → PerCpu → PerCpu
unfolding seg16
trap_init_percpu cpu_id cpu_ts c = record c {
  ts = record c.ts {
    ts_esp0 = (kstacktop + 2 ^ 32 - cpu_id * (kstksize + kstkgap)) % 2 ^ 32;
    ts_ss0 = gd_kd;
    ts_iomb = taskstate_size;
  };
  table =
      update c.table (gd_tss0 / 8 + cpu_id)
        (record (seg16 sts_t32a cpu_ts (taskstate_size - 1) 0) { sd_s = 0 });
  task_register = gd_tss0 + cpu_id * 8;
}

-- The segment registers as `env_init_percpu` leaves them.
pub record SegmentRegisters : Type 0 where
  pub gs : ℕ
  pub fs : ℕ
  pub es : ℕ
  pub ds : ℕ
  pub ss : ℕ
  pub cs : ℕ
  pub ldt : ℕ

unfoldable pub env_init_percpu : SegmentRegisters
env_init_percpu = record {
  gs = bit_or gd_ud 3;
  fs = bit_or gd_ud 3;
  es = gd_kd;
  ds = gd_kd;
  ss = gd_kd;
  cs = gd_kt;
  ldt = 0;
}
