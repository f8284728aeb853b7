-- ===== src/Base/Update.antt =====
-- Finite maps as functions on numbers, changed at one place.
use Prim.Native.Nat.{ℕ}
use mathlib.Core.Path.{◌≡◌}
use mathlib.Core.Logic.{◌≢◌}
use sisotp.Base.Tests.{◌==◌, if◌then◌else◌, ==-refl, ==-eq_false}

module _ {ℓ} {A : Type ℓ} where
  abbrev pub update : (ℕ → A) → ℕ → A → ℕ → A
  update f i a j = if j == i then a else f j

  pub update_self : (f : ℕ → A) (i : ℕ) (a : A) → update f i a i ≡ a
  update_self f i a = rw (==-refl i)

  pub update_ne : (f : ℕ → A) (i : ℕ) (a : A) {j : ℕ} → j ≢ i → update f i a j ≡ f j
  update_ne f i a {j} h = rw (==-eq_false j i h)
