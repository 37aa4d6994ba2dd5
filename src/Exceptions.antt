-- ===== src/Exceptions.antt =====
-- phase2/exceptions.c: the entry of every exception. `cause` is what `getCAUSE` returns.
use Prim.Native.Nat.{bit_and}
use progetto_so.Base.{ℕ, ◌&&◌, ◌||◌, ◌==◌, leb, if◌then◌else◌}
use progetto_so.Kernel.{Platform, Kernel, Outcome}
use progetto_so.Traps.{trap_exception_handler, tlb_exception_handler}
use progetto_so.Syscalls.{syscall_exception_handler}
use progetto_so.Interrupts.{interrupt_handler}

module _ (m : Platform) where
  unfoldable pub exception_handler : ℕ → Kernel → Outcome
  exception_handler cause k =
      let code = bit_and cause m.cause_exccode_mask in
      if m.cause_is_int cause
      then interrupt_handler m cause k
      else if (code == 8) || (code == 11)
      then syscall_exception_handler m k
      else if leb 24 code && leb code 28
      then tlb_exception_handler m k
      else trap_exception_handler m k
