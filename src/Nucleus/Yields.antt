-- ===== src/Nucleus/Yields.antt =====
-- `Yield` of phase2/syscalls.c with the scheduler after it.
use mathlib.Core.List.{append-nil, map-append}
use progetto_so.Base.{
  ℕ, ◌+◌, ◌≡◌, ◌≢◌, refl, sym, ap, subst, ◌∙◌, inl, inr, eq_cases, none, some, [], ◌∷◌, ◌++◌, map,
  ◌>>=◌,
}
use progetto_so.ListX.{list_add_tail}
use progetto_so.ListX.Rings.{Rings, Linked, put}
use progetto_so.ListX.Operations.{Linked-list_add_tail}
use progetto_so.Memory.{Pcb, p_list, ready_queue, with_links}
use progetto_so.Kernel.{Kernel, Outcome, ldst, timeslice, scheduler}
use progetto_so.Kernel.Schedule.{scheduler-dispatch}
use progetto_so.Syscalls.Common.{save_state}
use progetto_so.Syscalls.Queries.{yield}
use progetto_so.Syscalls.Saved.{charged, saved, saved_pcb, saved_current, saved_self, saved_ne}
use progetto_so.Nucleus.{IsStore, Holds}
use progetto_so.Nucleus.Moves.{take_ready-IsStore, put_ready-IsStore}
use progetto_so.Nucleus.Pcbs.{IsStore-pcbs}
use progetto_so.Nucleus.Slices.{front_of}

-- The process `p` has given the processor to `q`, which may be `p` itself.
pub record Yielded (k : Kernel) (p : ℕ) (h : Holds k (p ∷ [])) (o : Outcome) : Type 0 where
  pub kernel : Kernel
  pub q : ℕ
  pub outcome : o ≡ some (ldst (kernel.store.pcb q).p_s, kernel)
  pub current : kernel.current_process ≡ some q
  pub keeps : Holds kernel (q ∷ [])
  pub order : h.view.ready ++ p ∷ [] ≡ q ∷ keeps.view.ready
  pub saved_it : kernel.store.pcb p ≡ saved_pcb p k
  pub others : (x : ℕ) → x ≢ p → kernel.store.pcb x ≡ k.store.pcb x
  pub slice : kernel.timer ≡ timeslice

module _ (k : Kernel) (p : ℕ) (h : Holds k (p ∷ [])) where
  saved_field :
      {A : Type 0} (pick : Pcb → A)
      → pick (saved_pcb p k) ≡ pick (k.store.pcb p)
      → (y : ℕ) → pick ((saved p k).store.pcb y) ≡ pick (k.store.pcb y)
  saved_field pick e y = elim (eq_cases y p) [
    | inl d ↦ rw d (ap pick (saved_self k p) ∙ e)
    | inr ne ↦ ap pick (saved_ne k p y ne)
  ]

  saved-IsStore : IsStore (saved p k).store h.rings h.view (p ∷ [])
  saved-IsStore =
      IsStore-pcbs h.store (saved p k).store.pcb (saved_field (λ y. y.p_sem_add) refl)
        (saved_field (λ y. y.p_parent) refl)

  -- Let the invariant of the whole kernel hold while the process `p` runs. `Yield` charges `p` for its
  -- time, saves its state behind the call and puts it at the end of the ready queue, whatever its
  -- priority; the first process of that queue leaves it and goes on from its saved state as the
  -- running process, with a full time slice. All other PCBs are unchanged but for their links, and
  -- the invariant holds.
  pub yield-Yielded : k.current_process ≡ some p → Yielded k p h (yield k)
  unfolding yield
  yield-Yielded e =
      let v = h.view in
      let s = (saved p k).store in
      let t = list_add_tail (p_list p) ready_queue s.links in
      let (q, qs, front) = front_of v.ready p [] in
      let i = saved-IsStore in
      let j : IsStore s h.rings (record v { ready = v.ready ++ [] }) (p ∷ []) =
        subst (λ xs. IsStore s h.rings (record v { ready = xs }) (p ∷ []))
          (sym (append-nil v.ready)) i in
      let r : Rings = put (p_list p) ready_queue (map p_list (v.ready ++ p ∷ [])) h.rings in
      let l : Linked t r =
        subst (λ xs. Linked t (put (p_list p) ready_queue xs h.rings))
          (ap (λ xs. xs ++ p_list p ∷ []) i.queues.ready_entries
            ∙ sym (map-append p_list v.ready (p ∷ [])))
          (Linked-list_add_tail s.links h.rings i.asl.linked ready_queue i.queues.ready_head
            (p_list p) i.queues.held_loose.0) in
      let put_back : IsStore (with_links s t) r (record v { ready = v.ready ++ p ∷ [] }) [] =
        put_ready-IsStore v p [] v.ready [] j t l in
      let lined : IsStore (with_links s t) r (record v { ready = q ∷ qs }) [] =
        subst (λ xs. IsStore (with_links s t) r (record v { ready = xs }) []) front put_back in
      let left : Kernel = record (saved p k) { store = with_links s t; current_process = none } in
      let (w, went, linked) =
        scheduler-dispatch left r lined.asl.linked lined.queues.ready_head q qs
          lined.queues.ready_entries in
      let rest : ℕ → Kernel → Outcome = λ x c. scheduler (record (save_state x c) {
        store =
            with_links (save_state x c).store
              (list_add_tail (p_list x) ready_queue (save_state x c).store.links);
        current_process = none;
      }) in
      let path : yield k ≡ rest p (charged p k) =
        ap (λ (c : Kernel). c.current_process >>= λ x. rest x c) (saved_current k p e)
        ∙ ap (λ o. o >>= λ x. rest x (charged p k)) e in
      record {
        kernel = record left {
          store = with_links (left.store) w;
          current_process = some q;
          timer = timeslice;
          p_start = left.clock left.readings;
          readings = left.readings + 1;
        };
        q = q;
        outcome = path ∙ went;
        current = refl;
        keeps = record {
          rings = _;
          view = _;
          store = take_ready-IsStore v q [] [] qs lined w linked;
          counted = h.counted;
        };
        order = front;
        saved_it = saved_self k p;
        others = λ x ne. saved_ne k p x ne;
        slice = refl;
      }
