-- ===== src/Nucleus/Slices.antt =====
-- The end of a time slice: `handlePLT` of phase2/interrupts.c with the scheduler after it.
use progetto_so.Base.{
  ℕ, ◌+◌, ◌%◌, ◌^◌, ◌≤◌, ◌<◌, ◌≡◌, ◌≢◌, refl, sym, ap, subst, ◌∙◌, Option, none, some, List, [],
  ◌∷◌, ◌++◌, map, arith, eq_cases, inl, inr, All, All-map, write, write_self, write_ne, ◌>>=◌,
}
use progetto_so.ListX.Rings.{Rings, put}
use progetto_so.Memory.{Pcb, p_list, ready_queue, with_links}
use progetto_so.Pcb.{insert_proc_q}
use progetto_so.Pcb.Insert.{rank, prio, ahead, behind, ahead-behind, All-ahead, behind-lower}
use progetto_so.Kernel.{
  Kernel, Outcome, ldst, timeslice, sub32, charge, with_store, update_cpu_time, scheduler,
}
use progetto_so.Kernel.Schedule.{scheduler-dispatch}
use progetto_so.Syscalls.Common.{save_state}
use progetto_so.Interrupts.{preempt, handle_plt}
use progetto_so.Nucleus.{IsStore, Holds}
use progetto_so.Nucleus.Moves.{take_ready-IsStore}
use progetto_so.Nucleus.Ready.{insert_proc_q-IsStore}
use progetto_so.Nucleus.Pcbs.{IsStore-pcbs}

-- The process `p` has been charged for its time and its state is saved.
abbrev pub interrupted : Kernel → ℕ → Pcb
interrupted k p = record (k.store.pcb p) {
  p_time = ((k.store.pcb p).p_time + sub32 (k.clock k.readings) k.p_start) % 2 ^ 32;
  p_s = k.exception_state;
}

-- The process `p` has lost the processor to `q`, which may be `p` itself.
pub record Preempted (k : Kernel) (p : ℕ) (h : Holds k (p ∷ [])) (o : Outcome) : Type 0 where
  pub kernel : Kernel
  pub q : ℕ
  pub outcome : o ≡ some (ldst (kernel.store.pcb q).p_s, kernel)
  pub current : kernel.current_process ≡ some q
  pub keeps : Holds kernel (q ∷ [])
  pub before : List ℕ
  pub behind_it : List ℕ
  pub were_ready : h.view.ready ≡ before ++ behind_it
  pub are_ready : before ++ p ∷ behind_it ≡ q ∷ keeps.view.ready
  pub not_lower : All (λ y. prio k.store p ≤ prio k.store y) before
  pub lower : (y : ℕ) (ys : List ℕ) → behind_it ≡ y ∷ ys → prio k.store y < prio k.store p
  pub saved : kernel.store.pcb p ≡ interrupted k p
  pub others : (x : ℕ) → x ≢ p → kernel.store.pcb x ≡ k.store.pcb x
  pub slice : kernel.timer ≡ timeslice

pub front_of :
    (us : List ℕ) (p : ℕ) (ws : List ℕ) → (q : ℕ) × (qs : List ℕ) × (us ++ p ∷ ws ≡ q ∷ qs)
front_of [] p ws = (p, ws, refl)
front_of (u ∷ us) p ws = (u, us ++ p ∷ ws, refl)

-- The first of the ready queue gets the processor.
module _ (k : Kernel) (p : ℕ) (h : Holds k (p ∷ [])) where
  -- The kernel once the process is charged and saved.
  abbrev stopped : Kernel
  stopped = save_state p (record k {
    store = record (k.store) {
      pcb = write k.store.pcb p (record (k.store.pcb p) {
        p_time = ((k.store.pcb p).p_time + sub32 (k.clock k.readings) k.p_start) % 2 ^ 32;
      });
    };
    timer = timeslice;
    p_start = k.clock k.readings;
    readings = k.readings + 1;
  })

  abbrev charged_pcb : Pcb
  charged_pcb = record (k.store.pcb p) {
    p_time = ((k.store.pcb p).p_time + sub32 (k.clock k.readings) k.p_start) % 2 ^ 32;
  }

  stopped_self : stopped.store.pcb p ≡ interrupted k p
  stopped_self =
      let once = write k.store.pcb p charged_pcb in
      write_self once p (record (once p) { p_s = k.exception_state })
      ∙ ap (λ (y : Pcb). record y { p_s = k.exception_state })
          (write_self k.store.pcb p charged_pcb)

  stopped_others : (y : ℕ) → y ≢ p → stopped.store.pcb y ≡ k.store.pcb y
  stopped_others y ne =
      let once = write k.store.pcb p charged_pcb in
      write_ne once p (record (once p) { p_s = k.exception_state }) y ne
      ∙ write_ne k.store.pcb p charged_pcb y ne

  stopped_field :
      {A : Type 0} (pick : Pcb → A)
      → pick (interrupted k p) ≡ pick (k.store.pcb p)
      → (y : ℕ) → pick (stopped.store.pcb y) ≡ pick (k.store.pcb y)
  stopped_field pick e y = elim (eq_cases y p) [
    | inl d ↦ rw d (ap pick stopped_self ∙ e)
    | inr ne ↦ ap pick (stopped_others y ne)
  ]

  stopped-IsStore : IsStore stopped.store h.rings h.view (p ∷ [])
  stopped-IsStore =
      IsStore-pcbs h.store stopped.store.pcb (stopped_field (λ y. y.p_sem_add) refl)
        (stopped_field (λ y. y.p_parent) refl)

  -- Let the invariant of the whole kernel hold while the process `p` runs. At the end of its time
  -- slice the handler returns: `p` is charged for the time since `p_start` and its state is saved, it goes into the ready queue in front of the first process of a lower priority, while
  -- the others keep their order, and the first process of that queue leaves it and goes on from its
  -- saved state as the running process, with a full time slice. All other PCBs are unchanged but for
  -- their links, and the invariant holds.
  pub handle_plt-Preempted : k.current_process ≡ some p → Preempted k p h (handle_plt k)
  unfolding handle_plt preempt update_cpu_time
  handle_plt-Preempted e =
      let j = stopped in
      let v = h.view in
      let us = ahead (prio j.store) p v.ready in
      let ws = behind (prio j.store) p v.ready in
      let (t, run, i) = insert_proc_q-IsStore j.store h.rings v p [] stopped-IsStore in
      let (q, qs, front) = front_of us p ws in
      let r : Rings = put (p_list p) ready_queue (map p_list (us ++ p ∷ ws)) h.rings in
      let i' : IsStore (with_links (j.store) t) r (record v { ready = q ∷ qs }) [] =
        subst (λ xs. IsStore (with_links (j.store) t) r (record v { ready = xs }) []) front i in
      let (w, went, l) =
        scheduler-dispatch (with_store j (with_links (j.store) t)) r i.asl.linked
          i.queues.ready_head q qs (i.queues.ready_entries ∙ ap (map p_list) front) in
      let now = k.clock k.readings in
      let k' = record k { timer = timeslice } in
      let c = record (charge p now k') { p_start = now; readings = k.readings + 1 } in
      let charged_path : update_cpu_time k' ≡ c =
        ap
          (λ o. elim o as (λ _. Kernel) [
            | some x ↦ record (charge x now k') { p_start = now; readings = k.readings + 1 }
            | none ↦ record k' { p_start = now; readings = k.readings + 1 }
          ])
          e in
      let saved_path : preempt c
          ≡ (insert_proc_q ready_queue p j.store >>= λ s. some (with_store j s)) =
        ap
          (λ o. elim o as (λ _. Option Kernel) [
            | none ↦ some c
            | some x ↦
                (insert_proc_q ready_queue x (save_state x c).store >>= λ s.
                some (with_store (save_state x c) s))
          ])
          e in
      let same : (y : ℕ) → prio j.store y ≡ prio k.store y =
        λ y. ap rank (stopped_field (λ z. z.p_prio) refl y) in
      record {
        kernel = record j {
          store = with_links (j.store) w;
          current_process = some q;
          timer = timeslice;
          p_start = j.clock j.readings;
          readings = j.readings + 1;
        };
        q = q;
        outcome =
            ap (λ x. preempt x >>= scheduler) charged_path
            ∙ (ap (λ o. o >>= scheduler) saved_path
                ∙ (ap (λ o. (o >>= λ s. some (with_store j s)) >>= scheduler) run ∙ went));
        current = refl;
        keeps = record {
          rings = _;
          view = _;
          store = take_ready-IsStore v q [] [] qs i' w l;
          counted = h.counted;
        };
        before = us;
        behind_it = ws;
        were_ready = sym (ahead-behind (prio j.store) p v.ready);
        are_ready = front;
        not_lower =
            All-map us (λ y le. (let a = same y in let b = same p in omega arith))
              (All-ahead (prio j.store) p v.ready);
        lower = λ y ys d.
            (let a = same y in
              let b = same p in
              let lt = behind-lower (prio j.store) p v.ready y ys d in omega arith);
        saved = stopped_self;
        others = stopped_others;
        slice = refl;
      }
