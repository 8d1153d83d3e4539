-- ===== src/Printk/Shows.antt =====
-- What kernel/printk.c shows on the terminal.
use nar_os.Prelude.{
  ℕ, ◌+◌, ◌^◌, true, false, ◌<◌, ◌≡◌, refl, Option, some, List, ◌∷◌, ◌++◌, ◌==◌, length, arith,
}
use nar_os.Prelude.Int.{ℤ}
use nar_os.CString.{CStr}
use nar_os.Device.{device_write}
use nar_os.Device.Access.{IsReady, device_calls}
use nar_os.Tty.{tty_print, tty_write}
use nar_os.Vsprintf.{Flags}
use nar_os.Vsprintf.Spec.{Arg, word}
use nar_os.Vsprintf.Text.{IsPlain, signed_text, vsprintf_d}
use nar_os.Printk.{Printk, Console, tty_call, find_dev, store_written, printk}

-- The console when a text has been printed.
abbrev pub shown : CStr → Console → Console
shown text c = record {
  buf = text;
  out = c.out ++ (tty_print text c.tty).0;
  tty = (tty_print text c.tty).1;
}

store_written-tty :
    (write_at d : ℕ) (text : CStr) (p : Printk)
    → IsReady p.devices d
    → (p.devices d).write ≡ write_at
    → 0 < write_at
    → store_written p d
        (device_write (tty_call write_at) d p.devices (record p.console { buf = text }))
      ≡ some (record { dev = some d; devices = p.devices; console = shown text p.console })
unfolding tty_write
store_written-tty write_at d text p ready at set =
    let calls =
      (device_calls (tty_call write_at) d p.devices (record p.console { buf = text }) ready).1 in
    let there : (write_at == 0) ≡ false = ground (arith, set) in
    let here : (write_at == write_at) ≡ true = ground arith in rw (calls, at, there, here) refl

-- With a terminal in the table that is ready and has `tty_write`, known or found at its own number,
-- `printk` of a text with one %d in it, other % left out and at most 990 characters around it, prints
-- the text with the signed decimal digits of the argument on the terminal and remembers the device.
pub printk-shows :
    {D : Type 0} (format_double : D → ℤ → ℤ → Flags → Option CStr) (write_at d num : ℕ)
    (pre post : CStr) (left : List (Arg D)) (p : Printk)
    → IsPlain pre
    → IsPlain post
    → num < 2 ^ 32
    → length pre + length post < 991
    → find_dev p ≡ some d
    → IsReady p.devices d
    → (p.devices d).write ≡ write_at
    → 0 < write_at
    → printk format_double write_at (pre ++ b'%' ∷ b'd' ∷ post) (word num ∷ left) p
      ≡ some (record {
        dev = some d;
        devices = p.devices;
        console = shown (pre ++ (signed_text num ++ post)) p.console;
      })
unfolding printk
printk-shows format_double write_at d num pre post left p h h' lt fits found ready at set =
    rw (vsprintf_d format_double pre post num left h h' lt fits, found, printk)
      (store_written-tty write_at d (pre ++ (signed_text num ++ post)) p ready at set)
