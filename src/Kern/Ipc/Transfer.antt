-- ===== src/Kern/Ipc/Transfer.antt =====
-- jos/kern/syscall.c: messages with a page, `sys_ipc_try_send` and the two address spaces.
use sisotp.Base.{
  ℕ, ◌%◌, ◌<◌, ◌≡◌, refl, true, false, some, arith, ltb, ◌==◌, update, bit_and, bit_and-one,
  bit_and-lowest,
}
use sisotp.Kern.Mmu.{pgsize, utop, pte_p, pte_u, pte_w, pgnum, pdx, ptx, flag}
use sisotp.Kern.State.{Kernel, value}
use sisotp.Kern.Monad.{ok}
use sisotp.Kern.Vm.{page_insert}
use sisotp.Kern.Vm.Tree.{is_present, translate}
use sisotp.Kern.Vm.Walk.{IsWalkable, slot, page_lookup-translate}
use sisotp.Kern.Vm.Insert.{IsInsertable, Inserted, page_insert-Inserted}
use sisotp.Kern.Env.{envid2env}
use sisotp.Kern.Syscall.{valid_perm}
use sisotp.Kern.Ipc.{sys_ipc_try_send, send_to, send_page, insert_sent, deliver, bad_transfer}
use sisotp.Kern.Ipc.Message.{IsDelivered, delivered, without_page}

-- A page at an aligned address that the sender may write if it grants that can be sent with any
-- valid permission word; but, unlike `sys_page_alloc` and `sys_page_map`, the call also takes a
-- word with only one of PTE_P and PTE_U, which is not valid: the test is for either bit.
bad_transfer-valid_perm :
    (srcva pte perm : ℕ)
    → srcva % pgsize ≡ 0
    → (flag perm pte_w ≡ true → flag pte pte_w ≡ true)
    → (valid_perm perm ≡ true → bad_transfer srcva pte perm ≡ false)
      × (perm ≡ pte_p → (valid_perm perm ≡ false) × (bad_transfer srcva pte perm ≡ false))
      × (perm ≡ pte_u → (valid_perm perm ≡ false) × (bad_transfer srcva pte perm ≡ false))
unfolding bad_transfer valid_perm flag
bad_transfer-valid_perm srcva pte perm a w = (
  λ v.
      let odd : perm % 2 ≡ 1 = ground (arith, bit_and-one perm) in
      let either : (bit_and perm 5 == 0) ≡ false = ground (arith, bit_and-lowest perm 5) in
      rw (a, either) (ground arith),
  λ e. rw (e, a) (refl, refl),
  λ e. rw (e, a) (refl, refl),
)

-- The place of the entry of a mapped address, and the word that stands there.
read_slot :
    (k : Kernel) (pgdir va pte : ℕ)
    → translate k.mem pgdir va ≡ some pte
    → (slot k pgdir va ≡ some (pgnum (k.mem pgdir (pdx va)), ptx va))
      × (k.mem (pgnum (k.mem pgdir (pdx va))) (ptx va) ≡ pte)
unfolding translate
read_slot k pgdir va pte e = (ground arith, ground arith)

without_page-IsInsertable :
    (k : Kernel) (t pgdir va perm pp : ℕ)
    → IsInsertable k pgdir va perm pp
    → IsInsertable (without_page t k) pgdir va perm pp
without_page-IsInsertable k t pgdir va perm pp h = record {
  low = h.low;
  tree = h.tree;
  walkable = record {
    fits_pde = h.walkable.fits_pde;
    directory = h.walkable.directory;
    fits_pte = h.walkable.fits_pte;
    leaf = h.walkable.leaf;
  };
  flags = h.flags;
  page = h.page;
  memory = h.memory;
  room = h.room;
  old = λ pte e. record {
    referenced = (h.old pte e).referenced;
    counted = (h.old pte e).counted;
    unlinked = (h.old pte e).unlinked;
  };
}

-- The transfer itself, in the state in which `send_page` runs.
send_page-some :
    (k k' : Kernel) (c t srcva dstva perm pgdir pgdir' pte : ℕ)
    → (k.envs c).env_pgdir ≡ some pgdir
    → (k.envs t).env_pgdir ≡ some pgdir'
    → IsWalkable k pgdir srcva
    → translate k.mem pgdir srcva ≡ some pte
    → bad_transfer srcva pte perm ≡ false
    → dstva % pgsize ≡ 0
    → page_insert pgdir' (some (pgnum pte)) dstva perm k ≡ ok (value 0) k'
    → send_page c t srcva dstva perm k
      ≡ ok
          (value 0)
          (record k' { envs = update k'.envs t (record (k'.envs t) { env_ipc_perm = perm }) })
unfolding send_page insert_sent
send_page-some k k' c t srcva dstva perm pgdir pgdir' pte f g w e b a i =
    let s = read_slot k pgdir srcva pte e in
    rw (f, page_lookup-translate k pgdir srcva w, e, s.0, s.1, b, a, g, i) refl

abbrev granted : (c t value_ perm : ℕ) → Kernel → Kernel
granted c t value_ perm k =
    delivered c t value_
      (record k { envs = update k.envs t (record (k.envs t) { env_ipc_perm = perm }) })

granted-IsDelivered :
    (k k' : Kernel) (c t value_ perm : ℕ)
    → k'.envs ≡ (without_page t k).envs
    → IsDelivered k c t value_ perm (granted c t value_ perm k')
granted-IsDelivered k k' c t value_ perm e = record {
  recving = ground arith;
  from = rw e (ground arith);
  sent = ground arith;
  perms = ground arith;
  returns_zero = rw e (ground arith);
  runnable = ground arith;
  others = λ i n. rw e (ground arith);
}

-- The call around the transfer.
call-sent :
    (k k' : Kernel) (c t envid value_ srcva perm : ℕ)
    → k.curenv ≡ some c
    → envid2env envid false k ≡ ok (value 0, some t) k
    → (k.envs t).env_ipc_recving ≡ true
    → srcva < utop
    → (k.envs t).env_ipc_dstva < utop
    → send_page c t srcva (k.envs t).env_ipc_dstva perm (without_page t k)
      ≡ ok
          (value 0)
          (record k' { envs = update k'.envs t (record (k'.envs t) { env_ipc_perm = perm }) })
    → sys_ipc_try_send envid value_ srcva perm k ≡ ok (value 0) (granted c t value_ perm k')
unfolding sys_ipc_try_send send_to deliver
call-sent k k' c t envid value_ srcva perm e f r l m s =
    let a : ltb srcva utop ≡ true = ground arith in
    let b : ltb (k.envs t).env_ipc_dstva utop ≡ true = ground arith in
    rw (f, r, e, a) (ground (arith, b, s))

-- A page mapped in the sender's walkable space and sent to an environment that waits for one at
-- an aligned address of its space, under the conditions of IsInsertable, with a permission word
-- that the call accepts and the page table for the target address in place: the call succeeds,
-- the message is delivered with the permission, the receiver's space has the sender's page at the
-- address that the receiver asked for, with that permission, and every other page of that space
-- stays as it was.
pub sys_ipc_try_send-transfer :
    (k : Kernel) (c t envid value_ srcva perm pgdir pgdir' pte : ℕ)
    → k.curenv ≡ some c
    → envid2env envid false k ≡ ok (value 0, some t) k
    → (k.envs t).env_ipc_recving ≡ true
    → srcva < utop
    → (k.envs t).env_ipc_dstva % pgsize ≡ 0
    → (k.envs c).env_pgdir ≡ some pgdir
    → (k.envs t).env_pgdir ≡ some pgdir'
    → IsWalkable k pgdir srcva
    → translate k.mem pgdir srcva ≡ some pte
    → bad_transfer srcva pte perm ≡ false
    → IsInsertable k pgdir' (k.envs t).env_ipc_dstva perm (pgnum pte)
    → is_present (k.mem pgdir' (pdx (k.envs t).env_ipc_dstva)) ≡ true
    → (k' : Kernel) × (sys_ipc_try_send envid value_ srcva perm k ≡ ok (value 0) k')
      × IsDelivered k c t value_ perm k'
      × Inserted k.mem pgdir' (k.envs t).env_ipc_dstva perm (pgnum pte) k'.mem
sys_ipc_try_send-transfer k c t envid value_ srcva perm pgdir pgdir' pte e f r l a g h w m b i
      here =
    let k₁ = without_page t k in
    let dstva = (k.envs t).env_ipc_dstva in
    let (k₂, inserted, new, _, kept, _) =
      page_insert-Inserted k₁ pgdir' dstva perm (pgnum pte)
        (without_page-IsInsertable k t pgdir' dstva perm (pgnum pte) i) here in
    let sent =
      send_page-some k₁ k₂ c t srcva dstva perm pgdir pgdir' pte (ground (arith, g))
        (ground (arith, h))
        record {
          fits_pde = w.fits_pde;
          directory = w.directory;
          fits_pte = w.fits_pte;
          leaf = w.leaf;
        }
        m b a inserted in
    (
      granted c t value_ perm k₂,
      call-sent k k₂ c t envid value_ srcva perm e f r l i.low sent,
      granted-IsDelivered k k₂ c t value_ perm kept,
      new,
    )
