-- ===== src/Syscall.antt =====
-- kernel/syscall.c, and lib/unistd.c with include/syscall.h: a system call from the library's function
-- to the kernel's. What the kernel's functions do is a parameter; `none` is a call that does not
-- return, or a failed assert.
pub mod Reach
mod Tests
use nar_os.Prelude.{
  ℕ, ◌+◌, ◌-◌, ◌^◌, Option, none, some, List, [], ◌∷◌, leb, ◌==◌, if◌then◌else◌, ◌>>=◌, length,
  get_elem?,
}
use nar_os.Interrupt.{Output, send_eoi}

-- The functions whose addresses are in `syscall_list`.
pub data Handler : Type 0 where
  at_sys_log : Handler
  at_sys_open : Handler
  at_sys_read : Handler
  at_sys_write : Handler
  at_sys_exit : Handler
  at_sys_yield : Handler
  at_sys_exec : Handler
  at_sys_sbrk : Handler

abbrev pub syscall_list : List Handler
syscall_list =
    at_sys_log ∷ at_sys_open ∷ at_sys_read ∷ at_sys_write ∷ at_sys_exit ∷ at_sys_yield ∷ at_sys_exec
    ∷ at_sys_sbrk ∷ []

-- The registers that the handler finds on its stack.
pub record Registers : Type 0 where
  pub edi : ℕ
  pub esi : ℕ
  pub ebp : ℕ
  pub esp : ℕ
  pub ebx : ℕ
  pub edx : ℕ
  pub ecx : ℕ
  pub eax : ℕ

-- `_syscall0` to `_syscall3`, up to the interrupt.
abbrev pub syscall0 : ℕ → Registers → Registers
syscall0 nr r = record r { eax = nr }

abbrev pub syscall2 : ℕ → ℕ → ℕ → Registers → Registers
syscall2 nr arg1 arg2 r = record r { eax = nr; ebx = arg1; ecx = arg2 }

abbrev pub syscall3 : ℕ → ℕ → ℕ → ℕ → Registers → Registers
syscall3 nr arg1 arg2 arg3 r = record r { eax = nr; ebx = arg1; ecx = arg2; edx = arg3 }

-- What the program finds in eax behind a call.
abbrev pub taken : {W : Type 0} → Option (Output × Registers × W) → Option (ℕ × W)
taken none = none
taken (some (out, r, w)) = some (r.eax, w)

module _ {W : Type 0} (handle : Handler → ℕ → ℕ → ℕ → ℕ → ℕ → W → Option (ℕ × W)) where
  -- The result is written into the register on the stack.
  unfoldable pub system_call_handle : ℕ → Registers → W → Option (Output × Registers × W)
  system_call_handle vector r w =
      if vector == 0x80
      then (if leb (length syscall_list) r.eax
          then some (send_eoi vector, record r { eax = 2 ^ 32 - 1 }, w)
          else (elim (get_elem? syscall_list r.eax) [
            | none ↦ none
            | some f ↦ do
              (ret, w') ← handle f r.ebx r.ecx r.edx r.esi r.edi w
              some (send_eoi vector, record r { eax = ret }, w')
          ]))
      else none

  -- `int $0x80`
  abbrev pub trap : Registers → W → Option (ℕ × W)
  trap r w = taken (system_call_handle 0x80 r w)

  -- The library's functions; `r` are the registers at the call.
  abbrev pub unistd_open : ℕ → ℕ → Registers → W → Option (ℕ × W)
  unistd_open path mode r w = trap (syscall2 1 path mode r) w

  abbrev pub unistd_read : ℕ → ℕ → ℕ → Registers → W → Option (ℕ × W)
  unistd_read fd buf buf_size r w = trap (syscall3 2 fd buf buf_size r) w

  abbrev pub unistd_write : ℕ → ℕ → ℕ → Registers → W → Option (ℕ × W)
  unistd_write fd buf len r w = trap (syscall3 3 fd buf len r) w

  abbrev pub unistd_yield : Registers → W → Option (ℕ × W)
  unistd_yield r w = trap (syscall0 5 r) w

  abbrev pub unistd_exit : Registers → W → Option (ℕ × W)
  unistd_exit r w = trap (syscall0 4 r) w
