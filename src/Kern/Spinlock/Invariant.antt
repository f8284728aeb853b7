-- ===== src/Kern/Spinlock/Invariant.antt =====
-- jos/kern/spinlock.c: who owns the lock, and whom its field `cpu` names.
use sisotp.Base.{
  ℕ, ◌≡◌, ◌≢◌, inl, inr, refl, sym, ap, Bool-cases, eq_of_==, ◌==◌, Bool, true, false, Option, none,
  some, arith, update,
}
use sisotp.Kern.Spinlock.{
  Spinlock, spin_initlock, Pc, running, lock_called, lock_test, unlock_called, unlock_test,
  panicked, spinning, acquired, recorded, unlocking, clearing, releasing, is_cpu, spin_step,
}
use sisotp.Kern.Spinlock.System.{
  System, at_start, Step, spin_lock, spin_unlock, access, Reach, start, later,
}

-- From the exchange that found the lock free to the one that frees it.
unfoldable pub owns : Pc → Bool
owns (running held) = held
owns (lock_called held) = held
owns (lock_test held) = held
owns spinning = false
owns (unlock_called held) = held
owns (unlock_test held) = held
owns (panicked held) = held
owns _ = true

-- While `cpu` names the owner.
unfoldable pub named : Pc → Bool
unfolding owns
named acquired = false
named releasing = false
named p = owns p

pub record Inv (lk : Spinlock) (pc : ℕ → Pc) : Type 0 where
  pub owned : (i : ℕ) → owns (pc i) ≡ true → lk.locked ≢ 0
  pub unique : (i j : ℕ) → owns (pc i) ≡ true → owns (pc j) ≡ true → i ≡ j
  pub names : (i : ℕ) → named (pc i) ≡ true → lk.cpu ≡ some i
  pub is_named : (i : ℕ) → lk.cpu ≡ some i → named (pc i) ≡ true
  pub owner : lk.locked ≢ 0 → (j : ℕ) × (owns (pc j) ≡ true)

Inv-start : Inv at_start.lock at_start.pc
unfolding spin_initlock owns named
Inv-start = record {
  owned = λ i h. cc;
  unique = λ i j h g. cc;
  names = λ i h. cc;
  is_named = λ i h. cc;
  owner = λ h. absurd (h refl);
}

pub is_cpu-true : (c : Option ℕ) (i : ℕ) → is_cpu c i ≡ true → c ≡ some i
is_cpu-true none i h = cc
is_cpu-true (some c) i h = ap some (eq_of_== c i h)

pub is_cpu-false : (c : Option ℕ) (i : ℕ) → is_cpu c i ≡ false → c ≢ some i
is_cpu-false none i h = λ e. cc
is_cpu-false (some c) i h = λ e. ground arith

pub named-owns : (p : Pc) → named p ≡ true → owns p ≡ true
unfolding owns named
named-owns (running held) h = h
named-owns (lock_called held) h = h
named-owns (lock_test held) h = h
named-owns (unlock_called held) h = h
named-owns (unlock_test held) h = h
named-owns (panicked held) h = h
named-owns spinning h = h
named-owns acquired h = refl
named-owns recorded h = refl
named-owns unlocking h = refl
named-owns clearing h = refl
named-owns releasing h = refl

module _ (lk : Spinlock) (pc : ℕ → Pc) (inv : Inv lk pc) (i : ℕ) where
  -- An access that changes neither `locked` nor `cpu`, nor whether the CPU owns the lock.
  keep :
      (lk' : Spinlock) (p p' : Pc)
      → pc i ≡ p
      → (lk'.locked == 0) ≡ (lk.locked == 0)
      → lk'.cpu ≡ lk.cpu
      → owns p' ≡ owns p
      → named p' ≡ named p
      → Inv lk' (update pc i p')
  keep lk' p p' e l c o n = record {
    owned = λ j h. ground (arith, inv.owned j);
    unique = λ j k h g. ground (arith, inv.unique j k);
    names = λ j h. ground (arith, inv.names j);
    is_named = λ j h. ground (arith, inv.is_named j);
    owner = λ h. let (j, g) = inv.owner (ground arith) in (j, ground arith);
  }

  -- The exchange that finds the lock free.
  take :
      (lk' : Spinlock) (p' : Pc)
      → lk.locked ≡ 0
      → lk'.locked ≡ 1
      → lk'.cpu ≡ lk.cpu
      → owns p' ≡ true
      → named p' ≡ false
      → Inv lk' (update pc i p')
  take lk' p' l l' c o n = record {
    owned = λ j h. omega arith;
    unique = λ j k h g. ground (arith, inv.owned j, inv.owned k);
    names = λ j h. ground (arith, inv.owned j, named-owns (pc j));
    is_named = λ j h. ground (arith, inv.owned j, inv.is_named j, named-owns (pc j));
    owner = λ h. (i, ground arith);
  }

  -- The owner writes its index to `cpu`.
  name :
      (lk' : Spinlock) (p' : Pc)
      → owns (pc i) ≡ true
      → lk'.locked ≡ lk.locked
      → lk'.cpu ≡ some i
      → owns p' ≡ true
      → named p' ≡ true
      → Inv lk' (update pc i p')
  name lk' p' e l c o n = record {
    owned = λ j h. ground (arith, inv.owned i);
    unique = λ j k h g. ground (arith, inv.unique j k, inv.unique i k, inv.unique j i);
    names = λ j h. ground (arith, inv.unique i j, named-owns (pc j));
    is_named = λ j h. ground arith;
    owner = λ h. (i, ground arith);
  }

  -- The owner clears `cpu`.
  clear :
      (lk' : Spinlock) (p' : Pc)
      → owns (pc i) ≡ true
      → lk'.locked ≡ lk.locked
      → lk'.cpu ≡ none
      → owns p' ≡ true
      → named p' ≡ false
      → Inv lk' (update pc i p')
  clear lk' p' e l c o n = record {
    owned = λ j h. ground (arith, inv.owned i);
    unique = λ j k h g. ground (arith, inv.unique j k, inv.unique i k, inv.unique j i);
    names = λ j h. ground (arith, inv.unique i j, named-owns (pc j));
    is_named = λ j h. ground arith;
    owner = λ h. (i, ground arith);
  }

  -- The exchange that frees the lock.
  free :
      (lk' : Spinlock) (p' : Pc)
      → owns (pc i) ≡ true
      → named (pc i) ≡ false
      → lk'.locked ≡ 0
      → lk'.cpu ≡ lk.cpu
      → owns p' ≡ false
      → named p' ≡ false
      → Inv lk' (update pc i p')
  free lk' p' e m l c o n = record {
    owned = λ j h. ground (arith, inv.unique i j);
    unique = λ j k h g. ground (arith, inv.unique j k);
    names = λ j h. ground (arith, inv.names j);
    is_named = λ j h. ground (arith, inv.is_named j);
    owner = λ h. absurd (h l);
  }

  access-Inv :
      (word : ℕ → ℕ) (ebp : ℕ) (p : Pc)
      → pc i ≡ p
      → Inv (spin_step word ebp i lk p).0 (update pc i (spin_step word ebp i lk p).1)
  unfolding spin_step owns named
  access-Inv word ebp (running held) e = keep _ _ _ e refl refl refl refl
  access-Inv word ebp (lock_called held) e = elim (Bool-cases (lk.locked == 0)) [
    | inl t ↦
        (let free : held ≡ false = ground (arith, inv.owned i) in
          rw t (keep _ _ _ e refl refl (sym free) (sym free)))
    | inr t ↦ rw t (keep _ _ _ e refl refl refl refl)
  ]
  access-Inv word ebp (lock_test held) e = elim (Bool-cases (is_cpu lk.cpu i)) [
    | inl t ↦ rw t (keep _ _ _ e refl refl refl refl)
    | inr t ↦
        (let free : held ≡ false = ground (arith, inv.names i, is_cpu-false lk.cpu i t) in
          rw t (keep _ _ _ e refl refl (sym free) (sym free)))
  ]
  access-Inv word ebp (unlock_called held) e = elim (Bool-cases (lk.locked == 0)) [
    | inl t ↦ rw t (keep _ _ _ e refl refl refl refl)
    | inr t ↦ rw t (keep _ _ _ e refl refl refl refl)
  ]
  access-Inv word ebp (unlock_test held) e = elim (Bool-cases (is_cpu lk.cpu i)) [
    | inl t ↦
        (let mine : held ≡ true = ground (arith, inv.is_named i, is_cpu-true lk.cpu i t) in
          rw t (keep _ _ _ e refl refl (sym mine) (sym mine)))
    | inr t ↦ rw t (keep _ _ _ e refl refl refl refl)
  ]
  access-Inv word ebp (panicked held) e = keep _ _ _ e refl refl refl refl
  access-Inv word ebp spinning e = elim (Bool-cases (lk.locked == 0)) [
    | inl t ↦ rw t (take _ _ (eq_of_== _ _ t) refl refl refl refl)
    | inr t ↦ rw t (keep _ _ _ e (sym t) refl refl refl)
  ]
  access-Inv word ebp acquired e = name _ _ (rw e refl) refl refl refl refl
  access-Inv word ebp recorded e = keep _ _ _ e refl refl refl refl
  access-Inv word ebp unlocking e = keep _ _ _ e refl refl refl refl
  access-Inv word ebp clearing e = clear _ _ (rw e refl) refl refl refl refl
  access-Inv word ebp releasing e = free _ _ (rw e refl) (rw e refl) refl refl refl refl

pub Step-Inv : {n : ℕ} {s t : System} → Step n s t → Inv s.lock s.pc → Inv t.lock t.pc
unfolding owns named
Step-Inv {s} (spin_lock i l e) inv = keep s.lock s.pc inv i _ _ _ e refl refl refl refl
Step-Inv {s} (spin_unlock i l e) inv = keep s.lock s.pc inv i _ _ _ e refl refl refl refl
Step-Inv {s} (access i word ebp l) inv = access-Inv s.lock s.pc inv i word ebp (s.pc i) refl

pub Reach-Inv : {n : ℕ} {s : System} → Reach n s → Inv s.lock s.pc
Reach-Inv start = Inv-start
Reach-Inv (later r st) = Step-Inv st (Reach-Inv r)
