-- ===== src/User/Examples.antt =====
-- The user library: `vcprintf` with the format "%d" and the argument 7, and a stub of a system call.
use sisotp.Base.{arith, ℕ, ◌≡◌, List, [], ◌∷◌}
use sisotp.Libc.Format.Args.{done}
use sisotp.Libc.Examples.Format.{decimal, decimal_seven}
use sisotp.Kern.Env.{fresh_tf}
use sisotp.Kern.Syscall.{sys_page_map}
use sisotp.User.Stubs.{page_map_call}
use sisotp.User.Stubs.Calls.{Runs, trap_dispatch-stubs}
use sisotp.User.Printf.{vcprintf}
use sisotp.User.Printf.Buffer.{joined, bytes, vcprintf-joined}

vcprintf-joined_example :
    (pieces : List (List ℕ)) × (vcprintf 12 decimal 16 (7 ∷ []) (λ i. 9) ≡ done (1, pieces))
    × (joined pieces ≡ bytes (55 ∷ []))
unfolding bytes
vcprintf-joined_example =
    vcprintf-joined 12 decimal 16 (7 ∷ []) (55 ∷ []) (λ i. 9) decimal_seven (omega arith, tt)

trap_dispatch-stubs_example : Runs 0 1 fresh_tf (page_map_call 1 2 3 4 5) (sys_page_map 1 2 3 4 5)
trap_dispatch-stubs_example = (trap_dispatch-stubs 0 1 fresh_tf 1 2 3 4 5).8
