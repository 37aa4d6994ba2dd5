-- ===== src/Syscalls/Saved.antt =====
-- What a service of phase2/syscalls.c that blocks the caller does before it blocks it.
use progetto_so.Base.{
  ℕ, ◌+◌, ◌%◌, ◌^◌, ◌≡◌, ◌≢◌, refl, ap, ◌∙◌, some, none, List, [], ◌∷◌, ◌++◌, All-map, ◌==◌,
  if◌then◌else◌, write_self, write_ne, eq_cases, inl, inr,
}
use progetto_so.ListX.Rings.{Rings}
use progetto_so.Memory.{Pcb, Store}
use progetto_so.Kernel.{Kernel, Outcome, charge, update_cpu_time, scheduler, sub32}
use progetto_so.Asl.Inv.{IsAsl, waiting}
use progetto_so.Asl.Kept.{Kept}
use progetto_so.Syscalls.Common.{advance, save_state}

-- The list is not affected by a change of PCBs that keeps the semaphores that they name.
pub IsAsl-pcbs :
    {s : Store} {r : Rings} {js fs : List ℕ} {queue : ℕ → List ℕ}
    → IsAsl s r js fs queue
    → (pcbs : ℕ → Pcb) → ((q : ℕ) → (pcbs q).p_sem_add ≡ (s.pcb q).p_sem_add)
    → IsAsl (record s { pcb = pcbs }) r js fs queue
IsAsl-pcbs {s} {r} {js} {fs} {queue} v pcbs same = record {
  core = record {
    linked = v.linked;
    active_head = v.active_head;
    free_head = v.free_head;
    active = v.active;
    free = v.free;
    sorted = v.sorted;
    bounded = v.bounded;
    queues =
        All-map js
          (λ j q. record {
            at_head = q.at_head;
            entries = q.entries;
            named = All-map (queue j) (λ p e. same p ∙ e) q.named;
            small = q.small;
          })
          v.queues;
    sentinels = v.sentinels;
  };
  busy = v.busy;
}

-- The running process `p` after the call, its time charged and its state saved.
abbrev pub saved_pcb : ℕ → Kernel → Pcb
saved_pcb p k = record (k.store.pcb p) {
  p_time = ((k.store.pcb p).p_time + sub32 (k.clock k.readings) k.p_start) % 2 ^ 32;
  p_s = (advance k).exception_state;
}

-- The kernel `k` has put its running process `p` to sleep at the semaphore `sem`; `soft` processes
-- wait for devices then, and `word` are the words of memory.
pub record Suspends (k : Kernel) (r : Rings) (js : List ℕ) (queue : ℕ → List ℕ) (sem p soft : ℕ)
    (word : ℕ → ℕ) (o : Outcome) : Type 0 where
  pub asleep : Kernel
  pub rings : Rings
  pub active : List ℕ
  pub free : List ℕ
  pub queues : ℕ → List ℕ
  pub outcome : o ≡ scheduler asleep
  pub valid : IsAsl asleep.store rings active free queues
  pub waits :
      (i : ℕ)
      → waiting asleep.store active queues i
        ≡ (if i == sem then waiting k.store js queue sem ++ p ∷ [] else waiting k.store js queue i)
  pub caller : asleep.store.pcb p ≡ record (saved_pcb p k) { p_sem_add = sem }
  pub others : (q : ℕ) → q ≢ p → asleep.store.pcb q ≡ k.store.pcb q
  pub kept : Kept p r rings
  pub no_current : asleep.current_process ≡ none
  pub counts : (asleep.process_count ≡ k.process_count) × (asleep.soft_block_count ≡ soft)
  pub words : asleep.word ≡ word

-- The kernel once the time of `p` is charged, and once its state is saved too.
abbrev pub charged : ℕ → Kernel → Kernel
charged p k = record (charge p (k.clock k.readings) (advance k)) {
  p_start = k.clock k.readings;
  readings = k.readings + 1;
}

abbrev pub saved : ℕ → Kernel → Kernel
saved p k = save_state p (charged p k)

pub saved_current :
    (k : Kernel) (p : ℕ) → k.current_process ≡ some p → update_cpu_time (advance k) ≡ charged p k
unfolding update_cpu_time
saved_current k p e = rw e refl

pub saved_self : (k : Kernel) (p : ℕ) → (saved p k).store.pcb p ≡ saved_pcb p k
saved_self k p =
    write_self (charged p k).store.pcb p _
    ∙ ap (λ (x : Pcb). record x { p_s = (advance k).exception_state }) (write_self k.store.pcb p _)

pub saved_ne : (k : Kernel) (p q : ℕ) → q ≢ p → (saved p k).store.pcb q ≡ k.store.pcb q
saved_ne k p q ne =
    write_ne (charged p k).store.pcb p
      (record ((charged p k).store.pcb p) { p_s = (advance k).exception_state }) q ne
    ∙ write_ne k.store.pcb p
        (record (k.store.pcb p) {
          p_time = ((k.store.pcb p).p_time + sub32 (k.clock k.readings) k.p_start) % 2 ^ 32;
        })
        q ne

pub saved_named :
    (k : Kernel) (p q : ℕ) → ((saved p k).store.pcb q).p_sem_add ≡ (k.store.pcb q).p_sem_add
saved_named k p q = elim (eq_cases q p) [
  | inl e ↦ rw e (ap (λ (x : Pcb). x.p_sem_add) (saved_self k p))
  | inr ne ↦ ap (λ (x : Pcb). x.p_sem_add) (saved_ne k p q ne)
]
