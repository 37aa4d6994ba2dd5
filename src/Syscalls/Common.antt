-- ===== src/Syscalls/Common.antt =====
-- What the services of phase2/syscalls.c share: the saved state of the caller, and the end of a
-- service that returns to it.
use progetto_so.Base.{ℕ, ◌+◌, ◌%◌, ◌^◌, Option, some, write, ◌>>=◌}
use progetto_so.Kernel.{Kernel, ldst, Outcome, with_store, set_pcb}
use progetto_so.Asl.{insert_blocked}

-- `caller_state->pc_epc += 4`
abbrev pub advance : Kernel → Kernel
advance k = record k {
  exception_state = record (k.exception_state) { pc_epc = (k.exception_state.pc_epc + 4) % 2 ^ 32 };
}

-- `caller_state->reg_a0 = v`
abbrev pub set_a0 : ℕ → Kernel → Kernel
set_a0 v k = record k { exception_state = record (k.exception_state) { reg_a0 = v } }

-- `LDST(caller_state)`
abbrev pub resume : Kernel → Outcome
resume k = some (ldst k.exception_state, k)

unfoldable pub insert_blocked_current : ℕ → ℕ → Kernel → Option Kernel
insert_blocked_current sem p k = insert_blocked sem p k.store >>= λ (_, s). some (with_store k s)

-- `currentProcess->p_s = *caller_state`
abbrev pub save_state : ℕ → Kernel → Kernel
save_state p k = set_pcb p (record (k.store.pcb p) { p_s = k.exception_state }) k

abbrev pub write_word : ℕ → ℕ → Kernel → Kernel
write_word a v k = record k { word = write k.word a v }
