-- ===== src/Kern/Monitor/Backtrace.antt =====
-- jos/kern/monitor.c: `mon_backtrace`, with the lines that it prints as their numbers and names, and the
-- numbers of `mon_kerninfo`.
use mathlib.Core.List.{map}
use sisotp.Base.{
  ℕ, zero, suc, ◌+◌, ◌-◌, ◌/◌, ◌%◌, ◌^◌, ◌≤◌, ◌<◌, ◌≡◌, ◌≢◌, refl, ap, List, [], ◌∷◌, Bool, true,
  false, Option, none, some, arith, leb, ◌==◌, if◌then◌else◌, length,
}
use sisotp.Libc.Strings.{Bytes}
use sisotp.Kern.Mmu.{ulim, kernbase, roundup}
use sisotp.Kern.State.{Kernel}
use sisotp.Kern.Monad.{Cmd, ok, pure, ◌>>=◌}
use sisotp.Kern.Mpconfig.{word_at}
use sisotp.Kern.Kdebug.Info.{UserStabData, Eipdebuginfo, in_tables, debuginfo_eip}

-- `entry - KERNBASE` and its like.
abbrev phys : ℕ → ℕ
phys symbol = (symbol + 2 ^ 32 - kernbase) % 2 ^ 32

-- The symbols are placed by the linker.
unfoldable pub mon_kerninfo : (start entry etext edata end : ℕ) → List ℕ
unfolding roundup
mon_kerninfo start entry etext edata end =
    start
    ∷ entry
    ∷ phys entry
    ∷ etext
    ∷ phys etext
    ∷ edata
    ∷ phys edata
    ∷ end
    ∷ phys end
    ∷ roundup (end - entry) 1024 / 1024
    ∷ []

-- The two lines printed for a frame.
pub record Frame : Type 0 where
  pub ebp : ℕ
  pub eip : ℕ
  pub args : List ℕ
  pub info : Eipdebuginfo
  pub offset : ℕ

module _ (kernel usd : UserStabData) (byte : Bytes) where
  abbrev pub arg : (ebp distance : ℕ) → ℕ
  arg ebp distance = word_at byte ((ebp + distance) % 2 ^ 32)

  abbrev pub frame : ℕ → Eipdebuginfo → Frame
  frame ebp info = record {
    ebp = ebp;
    eip = arg ebp 4;
    args = arg ebp 8 ∷ arg ebp 12 ∷ arg ebp 16 ∷ arg ebp 20 ∷ arg ebp 24 ∷ [];
    info = info;
    offset = (arg ebp 4 + 2 ^ 32 - info.eip_fn_addr) % 2 ^ 32;
  }

  abbrev shown : Frame → Option (List Frame) → Option (List Frame)
  shown f none = none
  shown f (some frames) = some (f ∷ frames)

  -- The loop, on fuel: none if it is used up, or where `debuginfo_eip` reads in front of its table.
  -- Its result, whether it knew the address, is not looked at.
  unfoldable pub mon_backtrace : (fuel ebp : ℕ) → Cmd (Option (List Frame))
  unfolding debuginfo_eip
  mon_backtrace zero ebp = pure none
  mon_backtrace (suc fuel) ebp =
      let rest = mon_backtrace fuel (word_at byte ebp) in
      if ebp == 0 then pure (some []) else do
        dbgi ← debuginfo_eip kernel usd byte (arg ebp 4)
        elim dbgi [
          | none ↦ pure none
          | some (known, info) ↦ do frames ← rest; pure (shown (frame ebp info) frames)
        ]

  -- A stack of frames of kernel code, from the frame at `ebp` to the outermost, of which the saved
  -- `ebp` is 0, with the addresses that they return to.
  pub data Frames : ℕ → List ℕ → Type 0 where
    outermost : Frames 0 []
    inside :
        {ebp : ℕ} {eips : List ℕ} {found : Bool × Eipdebuginfo}
        → ebp ≢ 0
        → ulim ≤ arg ebp 4
        → in_tables kernel byte (arg ebp 4) ≡ some found
        → Frames (word_at byte ebp) eips
        → Frames ebp (arg ebp 4 ∷ eips)

  -- On a stack of frames of the kernel, all in the tables, with fuel for one more, `mon_backtrace`
  -- returns, changes nothing, and shows each address that a frame returns to, once and from the
  -- innermost outwards.
  pub mon_backtrace-Frames :
      (k : Kernel) (fuel : ℕ) {ebp : ℕ} {eips : List ℕ}
      → Frames ebp eips
      → length eips < fuel
      → (frames : List Frame) × (mon_backtrace fuel ebp k ≡ ok (some frames) k)
        × (map (λ f. f.eip) frames ≡ eips)
  unfolding mon_backtrace debuginfo_eip
  mon_backtrace-Frames k zero h l = absurd (omega arith)
  mon_backtrace-Frames k (suc fuel) outermost l = ([], refl, refl)
  mon_backtrace-Frames k (suc fuel) (inside {ebp} {eips} {found} z u e h) l =
      let (frames, r, q) = mon_backtrace-Frames k fuel h (omega arith) in
      let nonzero : (ebp == 0) ≡ false = ground arith in
      let high : leb ulim (arg ebp 4) ≡ true = ground arith in
      (frame ebp found.1 ∷ frames, rw (nonzero, high, e, r) refl, ap (λ l. arg ebp 4 ∷ l) q)
