-- ===== src/Kern/Examples/Monitor.antt =====
-- A command line of the monitor and the numbers of a kernel.
use sisotp.Base.{codes, ℕ, ◌-◌, ◌≡◌, refl, List, [], ◌∷◌, some, arith, get_or}
use sisotp.Libc.Strings.{Bytes}
use sisotp.Kern.Mmu.{roundup, rounddown}
use sisotp.Kern.Monitor.{runcmd, gobble, scan_past, parse, find_command, mon_backtrace}
use sisotp.Kern.Monitor.Backtrace.{mon_kerninfo}
use sisotp.Kern.Monitor.Words.{Text}
use sisotp.Kern.Monitor.Runcmd.{command_line, runcmd-words}

abbrev typed : List ℕ
typed = codes " backtrace  -v"

abbrev memory : Bytes
memory a = get_or typed (a - 100) 0

typed-Text : Text memory 100 typed
typed-Text = ground arith

runcmd-words_example : runcmd 15 memory 100 ≡ some (command_line memory 100 typed)
runcmd-words_example = runcmd-words memory 100 typed 15 (omega arith) typed-Text

its_command : runcmd 15 memory 100 ≡ some (mon_backtrace, 101 ∷ 112 ∷ [])
unfolding runcmd gobble scan_past parse find_command
its_command = refl

its_numbers :
    mon_kerninfo 0x10000C 0xF010000C 0xF0106000 0xF0120000 0xF0250000
    ≡ 0x10000C ∷ 0xF010000C ∷ 0x10000C ∷ 0xF0106000 ∷ 0x106000 ∷ 0xF0120000 ∷ 0x120000 ∷ 0xF0250000
      ∷ 0x250000 ∷ 1344 ∷ []
unfolding mon_kerninfo roundup rounddown
its_numbers = refl
