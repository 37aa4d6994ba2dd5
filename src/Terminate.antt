-- ===== src/Terminate.antt =====
-- The functions of phase2/syscalls.c that terminate a process and its progeny. The tree is walked
-- with `maxproc + 1` levels, and each loop over children has `maxproc + 1` rounds.
use progetto_so.Base.{
  ℕ, zero, suc, ◌+◌, ◌*◌, ◌%◌, ◌^◌, Bool, false, ◌&&◌, Option, none, some, ◌==◌, leb, if◌then◌else◌,
  write, ◌>>=◌,
}
use progetto_so.Memory.{maxproc, Store, ready_queue}
use progetto_so.Pcb.{free_pcb, out_proc_q, empty_child, remove_child}
use progetto_so.Asl.{out_blocked}
use progetto_so.Kernel.{Platform, Kernel, incr, decr, with_store}

-- `pcb == currentProcess`
abbrev pub is_current : ℕ → Option ℕ → Bool
is_current p none = false
is_current p (some q) = p == q

-- `&deviceSemaphores[i]`
abbrev pub device_semaphore : Platform → ℕ → ℕ
device_semaphore m i = (m.device_semaphores + 4 * i) % 2 ^ 32

module _ (m : Platform) where
  -- `sem >= &deviceSemaphores[0] && sem <= &deviceSemaphores[SEMDEVLEN - 1]`
  abbrev pub is_device_semaphore : ℕ → Bool
  is_device_semaphore sem = leb (device_semaphore m 0) sem && leb sem (device_semaphore m 48)

  -- A process that is not running and not ready is taken off the semaphore that blocks it.
  unfoldable pub unblock : ℕ → Kernel → Option Kernel
  unblock p k =
      let sem = (k.store.pcb p).p_sem_add in
      if sem == 0 then some k else do
        (_, s) ← out_blocked p k.store
        some (record k {
          store = s;
          word = write k.word sem (incr (k.word sem));
          soft_block_count =
              if is_device_semaphore sem then decr k.soft_block_count else k.soft_block_count;
        })

  abbrev pub unready : ℕ → Kernel → Option ℕ × Store → Option Kernel
  unready p k (none, s) = unblock p (with_store k s)
  unready p k (some _, s) = some (with_store k s)

  -- The part of `terminateProcessTree` that follows the loop over the children.
  unfoldable pub terminate_one : ℕ → Kernel → Option Kernel
  terminate_one p k = do
    j ←
        if is_current p k.current_process
        then some (record k { current_process = none })
        else (out_proc_q ready_queue p k.store >>= unready p k)
    some (record j { store = free_pcb p j.store; process_count = decr j.process_count })

  abbrev pub after_removal :
      (ℕ → Kernel → Option Kernel) → Kernel → Option ℕ × Store → Option Kernel
  after_removal terminate k (none, s) = none
  after_removal terminate k (some child, s) = terminate child (with_store k s)

  -- The loop over the children; `terminate` is the recursive call.
  unfoldable pub terminate_children : (ℕ → Kernel → Option Kernel) → ℕ → ℕ → Kernel → Option Kernel
  terminate_children terminate zero p k = none
  terminate_children terminate (suc rounds) p k =
      if empty_child p k.store
      then some k
      else (after_removal terminate k (remove_child p k.store) >>= λ j.
          terminate_children terminate rounds p j)

  unfoldable pub terminate_from : ℕ → ℕ → Kernel → Option Kernel
  terminate_from zero p k = none
  terminate_from (suc levels) p k =
      terminate_children (terminate_from levels) (maxproc + 1) p k >>= terminate_one p

  unfoldable pub terminate_process_tree : ℕ → Kernel → Option Kernel
  terminate_process_tree p k = terminate_from (maxproc + 1) p k
