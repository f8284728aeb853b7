-- ===== src/Kern/Examples/Calls.antt =====
-- System calls and the console on the example machine.
use sisotp.Base.{ℕ, ◌^◌, ◌≤◌, ◌<◌, true, ◌≡◌, inl, refl, arith, [], ◌∷◌, ◌==◌, if◌then◌else◌}
use sisotp.Kern.Mmu.{ulim, pte_u, pte_addr, pgnum, pdx, ptx, flag}
use sisotp.Kern.State.{Kernel, value}
use sisotp.Kern.Monad.{ok, stop, null_access}
use sisotp.Kern.Pmap.{pgdir_walk, kaddr, pa2page}
use sisotp.Kern.Vm.{page_lookup, lookup_entry, user_mem_check, check_range, check_address}
use sisotp.Kern.Vm.UserMem.{allows}
use sisotp.Kern.Exit.{user_mem_assert}
use sisotp.Kern.Syscall.{sys_cputs}
use sisotp.Libc.Strings.{Bytes}
use sisotp.Kern.Syscall.Cputs.{sys_cputs-allowed}
use sisotp.Kern.Syscall.Printed.{cputs_text, Same}
use sisotp.Kern.Vm.Tree.{translate}
use sisotp.Kern.Vm.Insert.{Inserted}
use sisotp.Kern.Env.{envid2env, envx}
use sisotp.Kern.Syscall.{valid_perm, sys_page_map}
use sisotp.Kern.Syscall.Perm.{sys_page_map-unmapped}
use sisotp.Kern.Ipc.{bad_transfer, sys_ipc_try_send}
use sisotp.Kern.Ipc.Message.{IsDelivered, sys_ipc_try_send-IsDelivered}
use sisotp.Kern.Ipc.Transfer.{sys_ipc_try_send-transfer}
use sisotp.Kern.Console.{Cons, cons_intr, cons_getc}
use sisotp.Kern.Console.Ring.{
  IsRing, contents, kept, read, waiting, cons_intr-contents, cons_getc-contents,
}
use sisotp.Kern.Examples.{machine, words}
use sisotp.Kern.Examples.Spaces.{machine-IsWalkable, sent-IsInsertable}

sys_page_map-unmapped_example :
    sys_page_map 0 0x406000 0 0x407000 5 machine ≡ stop null_access machine
unfolding envid2env valid_perm flag translate pgnum pdx ptx pgdir_walk kaddr pte_addr
sys_page_map-unmapped_example =
    sys_page_map-unmapped machine machine 0 0x406000 0 0x407000 5 0 0 2 2 (3, 7) refl refl refl refl
      refl refl refl refl (machine-IsWalkable 2 0x406000) refl refl refl

-- The message 42 to the environment 4097.
sys_ipc_try_send-IsDelivered_example :
    (k' : Kernel) × (sys_ipc_try_send 4097 42 0xF0000000 0 machine ≡ ok (value 0) k')
    × IsDelivered machine 0 1 42 0 k'
    × (k'.mem ≡ words)
    × (k'.pages ≡ machine.pages)
unfolding envid2env envx
sys_ipc_try_send-IsDelivered_example =
    (sys_ipc_try_send-IsDelivered machine 0 1 4097 42 0xF0000000 0 refl).2 refl refl
      (inl (omega arith))

-- The page at 0x405000 of the first environment, with the message 42.
sys_ipc_try_send-transfer_example :
    (k' : Kernel) × (sys_ipc_try_send 4097 42 0x405000 7 machine ≡ ok (value 0) k')
    × IsDelivered machine 0 1 42 7 k'
    × Inserted words 12 0x402000 7 4 k'.mem
unfolding envid2env envx translate pgnum pdx ptx flag bad_transfer
sys_ipc_try_send-transfer_example =
    sys_ipc_try_send-transfer machine 0 1 4097 42 0x405000 7 2 12 16391 refl refl refl (omega arith)
      refl refl refl (machine-IsWalkable 2 0x405000) refl refl sent-IsInsertable refl

-- Two characters wait at the end of the array.
abbrev typed : Cons
typed = record { buf = λ i. if i == 510 then 104 else 105; rpos = 510; wpos = 0 }

typed-IsRing : IsRing typed
typed-IsRing = record { reads = omega arith; writes = omega arith }

cons_intr-contents_example :
    IsRing (cons_intr (33 ∷ 0 ∷ []) typed)
    × (contents (cons_intr (33 ∷ 0 ∷ []) typed) ≡ 104 ∷ 105 ∷ 33 ∷ [])
unfolding contents kept read waiting
cons_intr-contents_example = cons_intr-contents (33 ∷ 0 ∷ []) typed typed-IsRing (omega arith)

cons_getc-contents_example :
    ((cons_getc [] (33 ∷ []) typed).0 ≡ 104)
    × (contents (cons_getc [] (33 ∷ []) typed).1 ≡ 105 ∷ 33 ∷ [])
    × IsRing (cons_getc [] (33 ∷ []) typed).1
unfolding contents kept read waiting
cons_getc-contents_example =
    (cons_getc-contents [] (33 ∷ []) typed 104 (105 ∷ 33 ∷ []) typed-IsRing (omega arith)).1 refl

-- The first environment prints 3 bytes of its page.
abbrev printed_once : Kernel
printed_once = record machine { printed = (0x405000, 3) ∷ [] }

three_bytes : sys_cputs 0x405000 3 machine ≡ ok tt printed_once
unfolding sys_cputs user_mem_assert user_mem_check check_range check_address page_lookup
    lookup_entry pgdir_walk kaddr pa2page pte_addr pgnum pdx ptx flag
three_bytes = refl

sys_cputs-allowed_example :
    (0x405003 < ulim)
    × ((a : ℕ) → 0x405000 ≤ a → a < 0x405003 → allows machine 2 pte_u a ≡ true)
    × (printed_once ≡ printed_once)
    × (3 < 2 ^ 31
        → (fuel : ℕ) (byte byte' : Bytes) → 3 < fuel
        → ((a : ℕ) → allows machine 2 pte_u a ≡ true → byte a ≡ byte' a)
        → Same 3 (cputs_text fuel byte 0x405000 3) (cputs_text fuel byte' 0x405000 3))
sys_cputs-allowed_example =
    sys_cputs-allowed 0 0x405000 3 2 machine printed_once refl refl (omega arith) (omega arith)
      (λ a l u b. machine-IsWalkable 2 a) three_bytes
