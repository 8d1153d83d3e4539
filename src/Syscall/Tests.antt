-- ===== src/Syscall/Tests.antt =====
-- Runs of kernel/syscall.c and instances of its theorems.
use nar_os.Prelude.{ℕ, ◌+◌, ◌≡◌, refl, Option, none, some, []}
use nar_os.Interrupt.{send_eoi}
use nar_os.Syscall.{
  Handler, at_sys_open, at_sys_read, at_sys_write, at_sys_exit, at_sys_yield, Registers,
  system_call_handle, unistd_open, unistd_read, unistd_write, unistd_yield, unistd_exit,
}
use nar_os.Syscall.Reach.{unistd_reaches}

-- Answers the first argument and counts the calls; `at_sys_exit` does not return.
abbrev counts : Handler → ℕ → ℕ → ℕ → ℕ → ℕ → ℕ → Option (ℕ × ℕ)
counts at_sys_exit a b c d e w = none
counts f a b c d e w = some (a, w + 1)

abbrev regs : ℕ → Registers
regs eax = record { edi = 1; esi = 2; ebp = 3; esp = 4; ebx = 5; edx = 6; ecx = 7; eax = eax }

calls :
    (system_call_handle counts 0x80 (regs 7) 0 ≡ some ([], regs 5, 1))
    × (system_call_handle counts 0x80 (regs 4) 0 ≡ none)
    × (system_call_handle counts 0x21 (regs 1) 0 ≡ none)
unfolding system_call_handle send_eoi
calls = (refl, refl, refl)

unistd_reaches_example :
    (unistd_open counts 100 2 (regs 0) 0 ≡ counts at_sys_open 100 2 6 2 1 0)
    × (unistd_read counts 3 200 8 (regs 0) 0 ≡ counts at_sys_read 3 200 8 2 1 0)
    × (unistd_write counts 3 200 8 (regs 0) 0 ≡ counts at_sys_write 3 200 8 2 1 0)
    × (unistd_yield counts (regs 0) 0 ≡ counts at_sys_yield 5 7 6 2 1 0)
    × (unistd_exit counts (regs 0) 0 ≡ counts at_sys_exit 5 7 6 2 1 0)
unistd_reaches_example = unistd_reaches counts 100 2 3 200 8 (regs 0) 0
