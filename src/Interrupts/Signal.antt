-- ===== src/Interrupts/Signal.antt =====
-- The V operation of `handleDevice` of phase2/interrupts.c on the semaphore of a device.
use progetto_so.Base.{ℕ, ◌≡◌, ◌≢◌, some, List, ◌∷◌, ◌++◌, map, ◌==◌, if◌then◌else◌, write, Option}
use progetto_so.ListX.Rings.{Rings}
use progetto_so.Memory.{Pcb, p_list, ready_queue}
use progetto_so.Pcb.Insert.{prio, IsDesc}
use progetto_so.Kernel.{Kernel, incr, decr}
use progetto_so.Asl.Inv.{IsAsl, waiting}

-- The PCB of a process that gets the status of its device.
abbrev pub served_pcb : ℕ → Pcb → Pcb
served_pcb status q = record q { p_s = record (q.p_s) { reg_a0 = status } }

-- The kernel `k` has moved the process `p` from the semaphore `sem`, where `ps` still wait, to the
-- ready queue `rs`, with the status of the device.
pub record Serves (k : Kernel) (js : List ℕ) (queue : ℕ → List ℕ) (sem p status : ℕ)
    (ps rs : List ℕ) (o : Option Kernel) : Type 0 where
  pub served : Kernel
  pub rings : Rings
  pub active : List ℕ
  pub free : List ℕ
  pub queues : ℕ → List ℕ
  pub front_part : List ℕ
  pub back_part : List ℕ
  pub outcome : o ≡ some served
  pub valid : IsAsl served.store rings active free queues
  pub waits :
      (i : ℕ)
      → waiting served.store active queues i ≡ (if i == sem then ps else waiting k.store js queue i)
  pub ready : rings.list ready_queue ≡ map p_list (front_part ++ p ∷ back_part)
  pub parts : rs ≡ front_part ++ back_part
  pub sorted : IsDesc (prio served.store) (front_part ++ p ∷ back_part)
  pub result : served.store.pcb p ≡ served_pcb status (k.store.pcb p)
  pub others : (q : ℕ) → q ≢ p → served.store.pcb q ≡ k.store.pcb q
  pub words : served.word ≡ write k.word sem (incr (k.word sem))
  pub current : served.current_process ≡ k.current_process
  pub counts :
      (served.process_count ≡ k.process_count) × (served.soft_block_count ≡ decr k.soft_block_count)
