-- ===== src/Syscalls/Processes.antt =====
-- phase2/syscalls.c: creation and termination of processes.
use progetto_so.Base.{ℕ, zero, suc, ◌+◌, ◌-◌, ◌^◌, Option, none, some, ◌==◌, if◌then◌else◌, ◌>>=◌}
use progetto_so.Memory.{maxproc, Store, p_child, ready_queue, container_of}
use progetto_so.Pcb.{alloc_pcb, insert_proc_q, insert_child, out_child}
use progetto_so.Kernel.{Platform, Kernel, Outcome, incr, with_store, set_pcb, scheduler}
use progetto_so.Terminate.{terminate_process_tree}
use progetto_so.Syscalls.Common.{advance, set_a0, resume}

-- The rest of `CreateProcess` once the PCB `p` is allocated.
unfoldable pub start_child : ℕ → Kernel → Outcome
start_child p k =
    let c = k.exception_state in
    do
      let k₁ =
          set_pcb p
            (record (k.store.pcb p) {
              p_s = k.state_at c.reg_a1;
              p_prio = c.reg_a2;
              p_support_struct = c.reg_a3;
            })
            k
      s ← insert_proc_q ready_queue p k₁.store
      parent ← k.current_process
      resume (
          advance (
            set_a0 (s.pcb p).p_pid (record k₁ {
              store = insert_child parent p s;
              process_count = incr k₁.process_count;
            })))

abbrev pub create_allocated : Kernel → Option ℕ × Store → Outcome
create_allocated k (none, s) = resume (advance (set_a0 (2 ^ 32 - 1) (with_store k s)))
create_allocated k (some p, s) = start_child p (with_store k s)

unfoldable pub create_process : Kernel → Outcome
create_process k = create_allocated k (alloc_pcb k.store)

-- The loop of `findPcbByPid` over the children of `root`, with the iterator at the address `pos`;
-- `find` is the recursive call.
unfoldable pub find_in_children :
    (ℕ → Store → Option (Option ℕ)) → ℕ → ℕ → ℕ → Store → Option (Option ℕ)
find_in_children find zero root pos s = none
find_in_children find (suc rounds) root pos s =
    let rest = find_in_children find rounds root (s.links.next pos) s in
    if pos == p_child root
    then some none
    else (find (container_of pos 2) s >>= λ found. elim found [
      | none ↦ rest
      | some p ↦ some (some p)
    ])

unfoldable pub find_from : ℕ → ℕ → ℕ → Store → Option (Option ℕ)
find_from target zero root s = none
find_from target (suc levels) root s =
    if (s.pcb root).p_pid == target
    then some (some root)
    else find_in_children (find_from target levels) (maxproc + 1) root (s.links.next (p_child root))
        s

unfoldable pub find_pcb_by_pid : ℕ → ℕ → Store → Option (Option ℕ)
find_pcb_by_pid root target s = find_from target (maxproc + 1) root s

-- The loop of `TerminateProcess` that moves up to the root of the process tree.
unfoldable pub root_from : ℕ → ℕ → Store → Option ℕ
root_from zero p s = none
root_from (suc k) p s = elim (s.pcb p).p_parent [ none ↦ some p | some q ↦ root_from k q s ]

-- The target of `TerminateProcess`.
unfoldable pub find_target : ℕ → Kernel → Option (Option ℕ)
find_target target_pid k =
    if target_pid == 0
    then some k.current_process
    else (k.current_process >>= λ p.
        root_from (maxproc + 1) p k.store >>= λ root. find_pcb_by_pid root target_pid k.store)

module _ (m : Platform) where
  unfoldable pub terminate_target : Option ℕ → Kernel → Outcome
  terminate_target none k = resume (advance k)
  terminate_target (some p) k = do
    j ← terminate_process_tree m p (with_store k (out_child p k.store).1)
    elim j.current_process [ none ↦ scheduler j | some _ ↦ resume (advance j) ]

  unfoldable pub terminate_process : Kernel → Outcome
  terminate_process k =
      find_target k.exception_state.reg_a1 k >>= λ target. terminate_target target k
