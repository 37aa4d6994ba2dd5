-- ===== src/Kernel/Schedule.antt =====
-- `scheduler` of phase2/scheduler.c.
use progetto_so.Base.{
  ℕ, ◌+◌, ◌^◌, ◌≤◌, ◌<◌, ◌⊎◌, ◌≡◌, ◌↔◌, ◌≢◌, some, none, List, [], ◌∷◌, map, arith,
}
use Prim.Native.Nat.{bit_or}
use progetto_so.ListX.{Links}
use progetto_so.ListX.Rings.{Rings, Linked, head, take_out}
use progetto_so.Memory.{p_list, ready_queue, with_links}
use progetto_so.Pcb.Queues.{remove_proc_q-Removed, empty_proc_q-is_empty}
use progetto_so.Kernel.{
  Kernel, ldst, halt, wait, spin, panic, Exit, timeslice, idle, scheduler, Outcome,
}

-- What the scheduler leaves if nothing is ready.
abbrev pub Stays : Kernel → Exit → Kernel → Type 0
Stays k x j =
    ((x ≡ wait)
      × (j ≡ record k { current_process = none; mie = 0xffff_ffbf; status = bit_or k.status 8 }))
    ⊎ ((x ≢ wait) × (j ≡ k))

module _ (k : Kernel) (r : Rings) (l : Linked k.store.links r)
    (hh : r.role ready_queue ≡ head) where
  -- If the ready queue is not empty, the scheduler loads the state of its first process, which
  -- leaves the queue and becomes the current one, with a full time slice and with its interval
  -- starting at the reading of the clock; only links of lists are written besides.
  pub scheduler-dispatch :
      (p : ℕ) (ps : List ℕ)
      → r.list ready_queue ≡ map p_list (p ∷ ps)
      → (t : Links) × (scheduler k
          ≡ some (
            ldst (k.store.pcb p).p_s,
            record k {
              store = with_links k.store t;
              current_process = some p;
              timer = timeslice;
              p_start = k.clock k.readings;
              readings = k.readings + 1;
            },
          ))
        × Linked t (take_out (p_list p) ready_queue (map p_list ps) r)
  unfolding scheduler
  scheduler-dispatch p ps e =
      let (t, run, m) = remove_proc_q-Removed k.store r ready_queue l hh (p ∷ ps) e in
      (t, rw (empty_proc_q-is_empty k.store r ready_queue l hh (p ∷ ps) e, run), m)

  -- The exit and what it says about the counts of processes.
  abbrev pub Idles : Outcome → Type 0
  Idles none = ⊥
  Idles (some (x, j)) =
      ((x ≡ halt) ↔ (k.process_count ≡ 0))
      × ((x ≡ wait) ↔ (0 < k.soft_block_count))
      × ((x ≡ panic) ↔ ((0 < k.process_count) × (k.soft_block_count ≡ 0)))
      × ((x ≡ halt) ⊎ ((x ≡ wait) ⊎ (x ≡ panic)))
      × (x ≢ spin)
      × (j.store ≡ k.store)
      × Stays k x j

  -- If the ready queue is empty and at most all the processes wait for devices, fewer than 2 ^ 31,
  -- the scheduler halts exactly if there is no process, waits exactly if some process waits for a
  -- device, panics exactly on a deadlock, with some process and none that waits for a device, and
  -- does nothing else; it never loops for ever. For a wait no process is the current one, all
  -- interrupts but those of the processor's local timer are enabled, and nothing else is written; a
  -- halt or a panic leaves the whole kernel as it was.
  pub scheduler-Idles :
      r.list ready_queue ≡ []
      → k.soft_block_count ≤ k.process_count
      → k.process_count < 2 ^ 31
      → Idles (scheduler k)
  unfolding scheduler idle
  scheduler-Idles e h₁ h₂ =
      rw (empty_proc_q-is_empty k.store r ready_queue l hh [] e) (ground arith)
