-- ===== src/Kern/Trap/Gates.antt =====
-- jos/kern/trap.c and jos/inc/mmu.h: the interrupt descriptor table that `trap_init` makes. The entry
-- points Trap_0, Trap_1, ... of trapentry.S are a parameter.
use sisotp.Base.{
  ℕ, ◌*◌, ◌+◌, ◌/◌, ◌%◌, ◌^◌, ◌≡◌, List, [], ◌∷◌, Bool, false, ◌&&◌, ◌||◌, arith, leb, ◌==◌,
  if◌then◌else◌, update,
}
use sisotp.Kern.Segments.{gd_kt}

pub record Gatedesc : Type 0 where
  pub gd_off_15_0 : ℕ
  pub gd_sel : ℕ
  pub gd_args : ℕ
  pub gd_rsv1 : ℕ
  pub gd_type : ℕ
  pub gd_s : ℕ
  pub gd_dpl : ℕ
  pub gd_p : ℕ
  pub gd_off_31_16 : ℕ

abbrev pub no_gate : Gatedesc
no_gate = record {
  gd_off_15_0 = 0;
  gd_sel = 0;
  gd_args = 0;
  gd_rsv1 = 0;
  gd_type = 0;
  gd_s = 0;
  gd_dpl = 0;
  gd_p = 0;
  gd_off_31_16 = 0;
}

-- SETGATE. STS_TG32 is 0xF and STS_IG32 is 0xE.
abbrev pub setgate : (istrap : Bool) → (sel off dpl : ℕ) → Gatedesc
setgate istrap sel off dpl = record {
  gd_off_15_0 = off % 2 ^ 32 % 2 ^ 16;
  gd_sel = sel;
  gd_args = 0;
  gd_rsv1 = 0;
  gd_type = if istrap then 0xf else 0xe;
  gd_s = 0;
  gd_dpl = dpl;
  gd_p = 1;
  gd_off_31_16 = off % 2 ^ 32 / 2 ^ 16;
}

-- The vectors of `trap_init`, with their privilege levels, in their order.
abbrev pub gates : List (ℕ × ℕ)
gates =
    (0, 0)
    ∷ (1, 0)
    ∷ (2, 0)
    ∷ (3, 3)
    ∷ (4, 0)
    ∷ (5, 0)
    ∷ (6, 0)
    ∷ (7, 0)
    ∷ (8, 0)
    ∷ (10, 0)
    ∷ (11, 0)
    ∷ (12, 0)
    ∷ (13, 0)
    ∷ (14, 0)
    ∷ (16, 0)
    ∷ (17, 0)
    ∷ (18, 0)
    ∷ (19, 0)
    ∷ (48, 3)
    ∷ (32, 0)
    ∷ []

module _ (entry : ℕ → ℕ) where
  unfoldable pub set_gates : List (ℕ × ℕ) → (ℕ → Gatedesc) → ℕ → Gatedesc
  set_gates [] idt = idt
  set_gates ((v, dpl) ∷ rest) idt =
      set_gates rest (update idt v (setgate false gd_kt (entry v) dpl))

  unfoldable pub trap_init : ℕ → Gatedesc
  trap_init = set_gates gates (λ v. no_gate)

-- A program in user mode may call the gate by `int`.
abbrev pub user_may : Gatedesc → Bool
user_may g = g.gd_p == 1 && leb 3 g.gd_dpl

-- The vectors of the exceptions that the processor knows, the clock and the system call.
abbrev pub is_vector : ℕ → Bool
is_vector v = leb v 8 || (leb 10 v && leb v 14) || (leb 16 v && leb v 19) || v == 32 || v == 48

-- The gate leads to `off` in the kernel's code segment, with the interrupts off.
pub record LeadsTo (off : ℕ) (g : Gatedesc) : Type 0 where
  pub address : g.gd_off_31_16 * 2 ^ 16 + g.gd_off_15_0 ≡ off % 2 ^ 32
  pub segment : g.gd_sel ≡ gd_kt
  pub interrupts_off : g.gd_type ≡ 0xe

-- `trap_init`, for every vector: a gate is present exactly for the exceptions 0 to 8, 10 to 14 and 16
-- to 19, the clock 32 and the system call 48. It leads to the entry point of its own vector, in the
-- kernel's code segment, with the interrupts off. A program in user mode may call only the breakpoint
-- 3 and the system call.
pub trap_init-gates :
    (entry : ℕ → ℕ) (v : ℕ)
    → ((trap_init entry v).gd_p ≡ (if is_vector v then 1 else 0))
      × ((trap_init entry v).gd_p ≡ 1 → LeadsTo (entry v) (trap_init entry v))
      × (user_may (trap_init entry v) ≡ (v == 3 || v == 48))
unfolding trap_init set_gates
trap_init-gates entry v = (
  ground arith,
  (λ p. record { address = ground arith; segment = ground arith; interrupts_off = ground arith }),
  ground arith,
)
