-- ===== src/Traps.antt =====
-- phase2/traps.c and phase2/tlb.c: what happens to a process at an exception that the nucleus does
-- not serve.
use progetto_so.Base.{ℕ, none, some, ◌==◌, if◌then◌else◌, write, ◌>>=◌}
use progetto_so.Pcb.{out_child}
use progetto_so.Kernel.{Platform, Kernel, Exit, ldcxt, Outcome, with_store, scheduler}
use progetto_so.Terminate.{terminate_process_tree}

abbrev pub pgfaultexcept : ℕ
pgfaultexcept = 0

abbrev pub generalexcept : ℕ
generalexcept = 1

module _ (m : Platform) where
  -- Die: the current process and its progeny are terminated.
  unfoldable pub die : ℕ → Kernel → Outcome
  die p k = do
    j ← terminate_process_tree m p (with_store k (out_child p k.store).1)
    scheduler (record j { current_process = none })

  -- Pass up: the saved state goes to the support structure, and its context is loaded.
  unfoldable pub pass_up : ℕ → ℕ → Kernel → Exit × Kernel
  pass_up p type k =
      let sup = (k.store.pcb p).p_support_struct in
      (
        ldcxt ((k.support sup).sup_except_context type),
        record k {
          support = write k.support sup (record (k.support sup) {
            sup_except_state = write (k.support sup).sup_except_state type k.exception_state;
          });
        },
      )

  unfoldable pub pass_up_or_die : ℕ → Kernel → Outcome
  pass_up_or_die type k = k.current_process >>= λ p.
      if (k.store.pcb p).p_support_struct == 0 then die p k else some (pass_up p type k)

  unfoldable pub trap_exception_handler : Kernel → Outcome
  trap_exception_handler k = pass_up_or_die generalexcept k

  unfoldable pub tlb_exception_handler : Kernel → Outcome
  tlb_exception_handler k = pass_up_or_die pgfaultexcept k
