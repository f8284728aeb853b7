-- ===== src/Kern/Examples/Starts.antt =====
-- The start of the devices and of the processors.
use sisotp.Base.{
  ◌*◌, ℕ, ◌+◌, ◌≤◌, ◌<◌, ◌≡◌, ◌≢◌, refl, true, List, [], ◌∷◌, ◌++◌, none, arith, ltb, if◌then◌else◌,
  ◌-◌,
}
use sisotp.Kern.Mmu.{kstacktop, kstksize, kstkgap}
use sisotp.Kern.Devices.{Access, out_byte, Io}
use sisotp.Kern.Devices.Serial.{com1, serial_send}
use sisotp.Kern.Devices.Sent.{Waited, serial_send-sent}
use sisotp.Kern.Segments.{gd_kd, PerCpu, Taskstate, gdt, trap_init_percpu}
use sisotp.Kern.Segments.Decoded.{IsTaskSegment, trap_init_percpu-own}
use sisotp.Kern.Mpconfig.{Cpus}
use sisotp.Kern.Mpconfig.Bounds.{AreNumbered}
use sisotp.Kern.Start.{boot_aps}
use sisotp.Kern.Start.Woken.{woken, boot_aps-woken}

-- Devices that answer 0 five times, and 0x20 from then on.
abbrev answers : Io
answers = record { reads = λ i. if ltb i 5 then 0 else 0x20; done = 0; trace = [] }

serial_send-sent_example :
    (seen : List Access) × ((serial_send 65 answers).1.trace ≡ out_byte com1 65 ∷ (seen ++ []))
    × Waited (com1 + 5) 0x20 12800 seen
serial_send-sent_example = serial_send-sent 65 answers

abbrev no_ts : Taskstate
no_ts = record {
  ts_link = 0;
  ts_esp0 = 0;
  ts_ss0 = 0;
  ts_esp1 = 0;
  ts_ss1 = 0;
  ts_esp2 = 0;
  ts_ss2 = 0;
  ts_cr3 = 0;
  ts_eip = 0;
  ts_eflags = 0;
  ts_eax = 0;
  ts_ecx = 0;
  ts_edx = 0;
  ts_ebx = 0;
  ts_esp = 0;
  ts_ebp = 0;
  ts_esi = 0;
  ts_edi = 0;
  ts_es = 0;
  ts_cs = 0;
  ts_ss = 0;
  ts_ds = 0;
  ts_fs = 0;
  ts_gs = 0;
  ts_ldt = 0;
  ts_t = 0;
  ts_iomb = 0;
}

abbrev fresh : PerCpu
fresh = record { ts = no_ts; table = gdt; task_register = 0 }

-- The third processor beside the first.
trap_init_percpu-own_example :
    let own = trap_init_percpu 2 0xf0200000 fresh in
    let theirs = trap_init_percpu 0 0xf0100000 fresh in
    IsTaskSegment 0xf0200000 (own.table 7)
    × ((i : ℕ) → i ≢ 7 → own.table i ≡ gdt i)
    × (own.ts.ts_ss0 ≡ gd_kd)
    × (own.ts.ts_esp0 + 2 * (kstksize + kstkgap) ≡ kstacktop)
    × (0 < 2 → own.ts.ts_esp0 + kstkgap ≤ theirs.ts.ts_esp0 - kstksize)
    × (◌≢◌ {A = ℕ} 0 2 → theirs.task_register ≢ own.task_register)
unfolding trap_init_percpu
trap_init_percpu-own_example =
    trap_init_percpu-own 2 0xf0200000 0 0xf0100000 fresh fresh (omega arith) (omega arith)
      (omega arith)

abbrev three_cpus : Cpus
three_cpus = record {
  cpu_id = λ i. i;
  ncpu = 3;
  bootcpu = 0;
  ismp = true;
  lapicaddr = 0xfee00000;
  started = none;
}

three_cpus-AreNumbered : AreNumbered three_cpus
three_cpus-AreNumbered = record {
  few = omega arith;
  numbered = λ i l. refl;
  first = refl;
  boot = omega arith;
}

boot_aps-woken_example : woken (boot_aps three_cpus 0 answers).1.trace ≡ 2 ∷ 2 ∷ 1 ∷ 1 ∷ []
boot_aps-woken_example = boot_aps-woken three_cpus 0 answers three_cpus-AreNumbered
