-- ===== src/Kern/Mpconfig/Bounds.antt =====
-- jos/kern/mpconfig.c: the processors that are found.
use sisotp.Base.{
  ℕ, zero, suc, ◌+◌, ◌≤◌, ◌<◌, ◌≡◌, subst, Option, none, some, Bool, false, Bool-cases, inl, inr,
  arith, ltb, leb, ◌==◌,
}
use sisotp.Libc.Strings.{Bytes}
use sisotp.Kern.State.{Kernel}
use sisotp.Kern.Monad.{Run, ok, stop, pure, and_then}
use sisotp.Kern.Mpconfig.{
  ncpu_max, Cpus, add_cpu, add_entries, finish, half_at, mpconfig, with_tables, mp_init,
}

-- The processors below `ncpu` have their index as identifier, and fit into the array; the processor of
-- the boot is one of the array or the one behind it.
pub record AreNumbered (s : Cpus) : Type 0 where
  pub few : s.ncpu ≤ ncpu_max
  pub numbered : (i : ℕ) → i < s.ncpu → s.cpu_id i ≡ i
  pub first : s.cpu_id 0 ≡ 0
  pub boot : s.bootcpu ≤ ncpu_max

add_cpu-AreNumbered :
    (byte : Bytes) (p : ℕ) (s : Cpus) → AreNumbered s → AreNumbered (add_cpu byte p s)
unfolding add_cpu
add_cpu-AreNumbered byte p s h = elim (Bool-cases (ltb s.ncpu ncpu_max)) [
  | inl t ↦ rw t (record {
    few = ground arith;
    first = ground (arith, h.first);
    numbered = λ i l. ground (arith, h.numbered i);
    boot = ground (arith, h.boot);
  })
  | inr t ↦ rw t (record {
    few = h.few;
    numbered = h.numbered;
    first = h.first;
    boot = ground (arith, h.boot, h.few);
  })
]

add_entries-AreNumbered :
    (n : ℕ) (byte : Bytes) (p : ℕ) (s : Cpus) → AreNumbered s → AreNumbered (add_entries n byte p s)
unfolding add_entries
add_entries-AreNumbered zero byte p s h = h
add_entries-AreNumbered (suc n) byte p s h = elim (Bool-cases (byte p == 0)) [
  | inl t ↦ rw t (add_entries-AreNumbered n byte (p + 20) _ (add_cpu-AreNumbered byte p s h))
  | inr t ↦ rw t (elim (Bool-cases (leb (byte p) 4)) [
    | inl u ↦ rw u (add_entries-AreNumbered n byte (p + 8) s h)
    | inr u ↦ rw u (record { few = h.few; numbered = h.numbered; first = h.first; boot = h.boot })
  ])
]

-- What is left over has no more than one processor if `ismp` is off.
record AreUsable (s : Cpus) : Type 0 where
  ids : AreNumbered s
  alone : s.ismp ≡ false → s.ncpu ≤ 1

one_id : (s : Cpus) → AreNumbered s → (i : ℕ) → i < 1 → s.cpu_id i ≡ i
one_id s h zero l = h.first
one_id s h (suc i) l = absurd (omega arith)

finish-AreUsable : (s : Cpus) → AreNumbered s → AreUsable (finish s)
unfolding finish
finish-AreUsable s h = elim (Bool-cases s.ismp) [
  | inl t ↦ rw t (record {
    ids = record { few = h.few; numbered = h.numbered; first = h.first; boot = h.boot };
    alone = λ e. cc;
  })
  | inr t ↦ rw t (record {
    ids = record {
      few = omega arith;
      numbered = λ i l. one_id s h i l;
      first = h.first;
      boot = h.boot;
    };
    alone = λ e. omega arith;
  })
]

with_tables-AreUsable :
    (byte : Bytes) (s : Cpus) (found : Option (ℕ × ℕ))
    → s.ncpu ≡ 0
    → ((i : ℕ) → s.cpu_id i ≡ 0)
    → AreUsable (with_tables byte s found).0
unfolding with_tables
with_tables-AreUsable byte s none z c = record {
  ids = record {
    few = omega arith;
    numbered = λ i l. absurd (omega arith);
    first = c 0;
    boot = omega arith;
  };
  alone = λ e. omega arith;
}
with_tables-AreUsable byte s (some (mp, conf)) z c = finish-AreUsable _ (
    add_entries-AreNumbered (half_at byte (conf + 34)) byte (conf + 44) _ (record {
      few = omega arith;
      numbered = λ i l. absurd (omega arith);
      first = c 0;
      boot = omega arith;
    }))

pure_returned :
    (r : Run (Option (ℕ × ℕ))) (f : Option (ℕ × ℕ) → Cpus × Bool) (u : Cpus × Bool) (k : Kernel)
    → and_then r (λ found. pure (f found)) ≡ ok u k
    → (found : Option (ℕ × ℕ)) × (f found ≡ u)
pure_returned (ok a k') f u k e = (a, cc)
pure_returned (stop s k') f u k e = cc

-- `mp_init` on the zeroed variables, whatever tables the firmware left in memory: if it returns, there
-- are at most NCPU processors, each with its index in `cpus` as identifier, and if `ismp` is off, no
-- more than one. The processor of the boot is at most NCPU.
pub mp_init-AreNumbered :
    (byte : Bytes) (s t : Cpus) (imcr : Bool) (k k' : Kernel)
    → s.ncpu ≡ 0
    → ((i : ℕ) → s.cpu_id i ≡ 0)
    → mp_init byte s k ≡ ok (t, imcr) k'
    → AreNumbered t × (t.ismp ≡ false → t.ncpu ≤ 1)
unfolding mp_init
mp_init-AreNumbered byte s t imcr k k' z c e =
    let (found, q) = pure_returned (mpconfig byte k) (with_tables byte s) (t, imcr) k' e in
    let u = with_tables-AreUsable byte s found z c in
    subst (λ (r : Cpus × Bool). AreNumbered r.0 × (r.0.ismp ≡ false → r.0.ncpu ≤ 1)) q
      (u.ids, u.alone)
