-- ===== src/Kern/Kdebug.antt =====
-- jos/kern/kdebug.c and jos/inc/stab.h: the search of the table of symbols. An index of the table is an
-- `int` that can become -1: a variable stands for the index plus one here.
pub mod Loops
pub mod Search
pub mod Bracket
pub mod Sorted
pub mod Info
use sisotp.Base.{
  ℕ, zero, suc, ◌+◌, ◌-◌, ◌*◌, ◌/◌, ◌%◌, ◌^◌, Bool, true, false, not, ◌&&◌, ◌||◌, Option, none,
  some, ltb, leb, ◌==◌, if◌then◌else◌,
}

pub record Stab : Type 0 where
  pub n_strx : ℕ
  pub n_type : ℕ
  pub n_other : ℕ
  pub n_desc : ℕ
  pub n_value : ℕ

abbrev pub n_fun : ℕ
n_fun = 0x24

abbrev pub n_sline : ℕ
n_sline = 0x44

abbrev pub n_so : ℕ
n_so = 0x64

abbrev pub n_sol : ℕ
n_sol = 0x84

abbrev pub n_psym : ℕ
n_psym = 0xa0

module _ (stabs : ℕ → Stab) where
  unfoldable pub has_type : (type k : ℕ) → Bool
  has_type type k = (stabs (k - 1)).n_type == type

  unfoldable pub value_at : ℕ → ℕ
  value_at k = (stabs (k - 1)).n_value

  -- The loops that go down from `m` to an entry of the type, as long as they are not below `l`.
  unfoldable pub earliest : (type l m : ℕ) → ℕ
  earliest type l zero = zero
  earliest type l (suc m) =
      let rest = earliest type l m in
      if leb l (suc m) && not (has_type type (suc m)) then rest else suc m

  -- The variables of `stab_binsearch`: the two that its pointers name, then its own.
  pub record Region : Type 0 where
    pub region_left : ℕ
    pub region_right : ℕ
    pub l : ℕ
    pub r : ℕ
    pub addr : ℕ
    pub any_matches : Bool

  -- The body of the loop, with the middle and the entry found from there.
  unfoldable pub narrow : (true_m m : ℕ) → Region → Region
  narrow true_m m s =
      if ltb m s.l
      then record s { l = true_m + 1 }
      else (if ltb (value_at m) s.addr
          then record s { any_matches = true; region_left = m; l = true_m + 1 }
          else (if ltb s.addr (value_at m)
              then record s { any_matches = true; region_right = m - 1; r = m - 1 }
              else record s {
                any_matches = true;
                region_left = m;
                l = m;
                addr = (s.addr + 1) % 2 ^ 32;
              }))

  unfoldable pub round : (type : ℕ) → Region → Region
  round type s = narrow ((s.l + s.r) / 2) (earliest type s.l ((s.l + s.r) / 2)) s

  unfoldable pub rounds : (fuel type : ℕ) → Region → Option Region
  rounds zero type s = none
  rounds (suc fuel) type s =
      let rest = rounds fuel type (round type s) in if ltb s.r s.l then some s else rest

  -- The end of the function, behind the loop.
  unfoldable pub outcome : (type : ℕ) → Region → ℕ × ℕ
  outcome type s =
      if s.any_matches
      then (earliest type (s.region_left + 1) s.region_right, s.region_right)
      else (s.region_left, s.region_left - 1)

  -- The values left in `*region_left` and `*region_right`; none if the fuel is used up.
  unfoldable pub stab_binsearch : (fuel region_left region_right type addr : ℕ) → Option (ℕ × ℕ)
  stab_binsearch fuel region_left region_right type addr =
      elim (rounds fuel type (record {
        region_left = region_left;
        region_right = region_right;
        l = region_left;
        r = region_right;
        addr = addr;
        any_matches = false;
      })) [ none ↦ none | some s ↦ some (outcome type s) ]
