-- ===== src/Syscalls/Waking.antt =====
-- The service of phase2/syscalls.c that wakes a process up, on top of `removeBlocked` and
-- `insertProcQ`.
use progetto_so.Base.{
  ℕ, ◌^◌, ◌≤◌, ◌<◌, ◌≡◌, some, List, ◌∷◌, ◌++◌, map, arith, All, ◌==◌, if◌then◌else◌, write,
  write_ne, true, leb, ◌||◌,
}
use progetto_so.ListX.{Links}
use progetto_so.ListX.Rings.{Rings, Linked, in_ring, put}
use progetto_so.Memory.{Pcb, Store, p_list, s_procq, semd_h, semd_free_h, ready_queue, with_links}
use progetto_so.Pcb.Insert.{prio}
use progetto_so.Kernel.{Kernel, Outcome, ldst, incr}
use progetto_so.Asl.Agree.{IsAsl-agree}
use progetto_so.Asl.Inv.{IsAsl, waiting}
use progetto_so.Syscalls.Common.{advance}

-- The active semaphore list is not affected when a PCB joins the ready queue.
pub IsAsl-ready :
    {s : Store} {r : Rings} {js fs : List ℕ} {queue : ℕ → List ℕ}
    → IsAsl s r js fs queue
    → (p : ℕ) (xs : List ℕ) (t : Links) → Linked t (put (p_list p) ready_queue xs r)
    → IsAsl (with_links s t) (put (p_list p) ready_queue xs r) js fs queue
IsAsl-ready {r} v p xs t l = IsAsl-agree v (put (p_list p) ready_queue xs r) t l (record {
  procq_role = λ j. write_ne r.role (p_list p) (in_ring ready_queue) (s_procq j) (omega arith);
  procq_list = λ j. write_ne r.list ready_queue xs (s_procq j) (omega arith);
  active_role = write_ne r.role (p_list p) (in_ring ready_queue) semd_h (omega arith);
  active_list = write_ne r.list ready_queue xs semd_h (omega arith);
  free_role = write_ne r.role (p_list p) (in_ring ready_queue) semd_free_h (omega arith);
  free_list = write_ne r.list ready_queue xs semd_free_h (omega arith);
})

-- The kernel `k` has moved the process `p` from the semaphore `sem`, where `ps` still wait, to the
-- ready queue `rs`.
pub record Wakes (k : Kernel) (js : List ℕ) (queue : ℕ → List ℕ) (sem p : ℕ) (ps rs : List ℕ)
    (o : Outcome) : Type 0 where
  pub awake : Kernel
  pub rings : Rings
  pub active : List ℕ
  pub free : List ℕ
  pub queues : ℕ → List ℕ
  pub front_part : List ℕ
  pub back_part : List ℕ
  pub outcome : o ≡ some (ldst (advance k).exception_state, awake)
  pub valid : IsAsl awake.store rings active free queues
  pub waits :
      (i : ℕ)
      → waiting awake.store active queues i ≡ (if i == sem then ps else waiting k.store js queue i)
  pub ready : rings.list ready_queue ≡ map p_list (front_part ++ p ∷ back_part)
  pub parts : rs ≡ front_part ++ back_part
  pub in_front : All (λ q. prio k.store p ≤ prio k.store q) front_part
  pub behind : All (λ q. prio k.store q < prio k.store p) back_part
  pub pcbs : awake.store.pcb ≡ k.store.pcb
  pub words : awake.word ≡ write k.word sem (incr (k.word sem))
  pub current : awake.current_process ≡ k.current_process
  pub counts :
      (awake.process_count ≡ k.process_count) × (awake.soft_block_count ≡ k.soft_block_count)

pub negative_waits :
    (w : ℕ) → 2 ^ 31 ≤ w → w < 2 ^ 32 → ((incr w == 0) || leb (2 ^ 31) (incr w)) ≡ true
negative_waits w h₁ h₂ = ground arith
