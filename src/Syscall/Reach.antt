-- ===== src/Syscall/Reach.antt =====
-- Which function of the kernel a system call reaches.
use nar_os.Prelude.{
  ℕ, ◌-◌, ◌^◌, ◌≡◌, ◌≤◌, refl, true, Option, none, some, [], leb, ◌>>=◌, length, arith,
}
use nar_os.Interrupt.{send_eoi}
use nar_os.Syscall.{
  Handler, at_sys_open, at_sys_read, at_sys_write, at_sys_exit, at_sys_yield, Registers, taken,
  syscall2, syscall3, syscall_list, system_call_handle, unistd_open, unistd_read, unistd_write,
  unistd_yield, unistd_exit,
}

back :
    {W : Type 0} (r : Registers) (o : Option (ℕ × W))
    → taken (o >>= λ a. some (send_eoi 0x80, record r { eax = a.0 }, a.1)) ≡ o
back r none = refl
back r (some (ret, w)) = refl

module _ {W : Type 0} (handle : Handler → ℕ → ℕ → ℕ → ℕ → ℕ → W → Option (ℕ × W)) where
  -- Each function of the library reaches the kernel's function of its name, with its arguments in
  -- the registers that the handler passes on, and gets its result.
  pub unistd_reaches :
      (path mode fd buf len : ℕ) (r : Registers) (w : W)
      → (unistd_open handle path mode r w ≡ handle at_sys_open path mode r.edx r.esi r.edi w)
        × (unistd_read handle fd buf len r w ≡ handle at_sys_read fd buf len r.esi r.edi w)
        × (unistd_write handle fd buf len r w ≡ handle at_sys_write fd buf len r.esi r.edi w)
        × (unistd_yield handle r w ≡ handle at_sys_yield r.ebx r.ecx r.edx r.esi r.edi w)
        × (unistd_exit handle r w ≡ handle at_sys_exit r.ebx r.ecx r.edx r.esi r.edi w)
  unfolding system_call_handle
  unistd_reaches path mode fd buf len r w = (
    back (syscall2 1 path mode r) (handle at_sys_open path mode r.edx r.esi r.edi w),
    back (syscall3 2 fd buf len r) (handle at_sys_read fd buf len r.esi r.edi w),
    back (syscall3 3 fd buf len r) (handle at_sys_write fd buf len r.esi r.edi w),
    back r (handle at_sys_yield r.ebx r.ecx r.edx r.esi r.edi w),
    back r (handle at_sys_exit r.ebx r.ecx r.edx r.esi r.edi w),
  )

  -- A number behind the table: nothing is called, and eax becomes -1.
  pub system_call_handle-unknown :
      (r : Registers) (w : W)
      → 8 ≤ r.eax
      → system_call_handle handle 0x80 r w ≡ some ([], record r { eax = 2 ^ 32 - 1 }, w)
  unfolding system_call_handle send_eoi
  system_call_handle-unknown r w h =
      let past : leb (length syscall_list) r.eax ≡ true = ground (arith, h) in rw past refl
