-- ===== src/Nucleus/Created.antt =====
-- `CreateProcess` of phase2/syscalls.c: what it does, and that it keeps the invariant of the kernel.
use progetto_so.Base.{
  ℕ, ◌+◌, ◌-◌, ◌%◌, ◌^◌, ◌≤◌, All, All-map, ◌<◌, ◌≡◌, ◌≢◌, refl, sym, ap, subst, ◌∙◌, inl, none,
  some, List, [], ◌∷◌, ◌++◌, arith, write, write_self, write_ne, ◌>>=◌,
}
use progetto_so.Memory.{Pcb, Store, with_links}
use progetto_so.Pcb.{alloc_pcb, insert_child, reset_pcb}
use progetto_so.Pcb.Insert.{rank, prio, ahead, behind, ahead-behind, All-ahead, behind-lower}
use progetto_so.Kernel.{Kernel, Outcome, ldst, incr, with_store, set_pcb}
use progetto_so.Syscalls.Common.{advance, set_a0, resume}
use progetto_so.Syscalls.Processes.{start_child, create_allocated, create_process}
use progetto_so.Nucleus.{Holds, IsKernel, Keeps, running}
use progetto_so.Nucleus.Ready.{IsKernel-of, insert_proc_q-IsStore, resume-Keeps}
use progetto_so.Nucleus.Pcbs.{IsStore-pcbs, same_field}
use progetto_so.Nucleus.Services.{current-Holds}
use progetto_so.Nucleus.Family.{held_Fresh}
use progetto_so.Nucleus.Adopt.{insert_child-IsStore}
use progetto_so.Nucleus.Birth.{Born, Births, alloc_pcb-Births}

-- The service returns to the caller behind the call, with the value `v` in `a0`.
pub record Answers (k : Kernel) (v : ℕ) (o : Outcome) : Type 0 where
  pub kernel : Kernel
  pub outcome : o ≡ some (ldst kernel.exception_state, kernel)
  pub state :
      kernel.exception_state
      ≡ record (k.exception_state) { reg_a0 = v; pc_epc = (k.exception_state.pc_epc + 4) % 2 ^ 32 }
  pub current : kernel.current_process ≡ k.current_process

-- The caller `q` gets the child `p`; `ps` are still free.
pub record Created (k : Kernel) (q : ℕ) (h : Holds k (q ∷ [])) (p : ℕ) (ps : List ℕ) (o : Outcome)
    : Type 0 where
  pub answer : Answers k k.store.next_pid o
  pub open answer use *
  pub keeps : Holds kernel (q ∷ [])
  pub left : keeps.view.free ≡ ps
  pub before : List ℕ
  pub behind_it : List ℕ
  pub were_ready : h.view.ready ≡ before ++ behind_it
  pub are_ready : keeps.view.ready ≡ before ++ p ∷ behind_it
  pub not_lower : All (λ y. prio kernel.store p ≤ prio kernel.store y) before
  pub lower : (y : ℕ) (ys : List ℕ) → behind_it ≡ y ∷ ys → prio kernel.store y < prio kernel.store p
  pub children : keeps.view.children q ≡ h.view.children q ++ p ∷ []
  pub filled : kernel.store.pcb p ≡ record (reset_pcb k.store.next_pid) {
    p_parent = some q;
    p_s = k.state_at k.exception_state.reg_a1;
    p_prio = k.exception_state.reg_a2;
    p_support_struct = k.exception_state.reg_a3;
  }
  pub others : (x : ℕ) → x ≢ p → kernel.store.pcb x ≡ k.store.pcb x
  pub numbered : kernel.store.next_pid ≡ (k.store.next_pid + 1) % 2 ^ 32
  pub count : kernel.process_count ≡ incr k.process_count

-- No PCB is free.
pub record Refused (k : Kernel) (o : Outcome) : Type 0 where
  pub answer : Answers k (2 ^ 32 - 1) o
  pub open answer use *
  pub same_store : kernel.store ≡ k.store
  pub same_count : kernel.process_count ≡ k.process_count

-- By the PCBs that are free before the call.
abbrev pub Creates : (k : Kernel) (q : ℕ) → Holds k (q ∷ []) → List ℕ → Outcome → Type 0
Creates k q h [] o = Refused k o
Creates k q h (p ∷ ps) o = Created k q h p ps o

-- The PCB is filled in, becomes ready and becomes the last child of the running process `q`.
start_child-Created :
    (k : Kernel) (q p : ℕ) (ps : List ℕ) (t : Store) (h : Holds k (q ∷ []))
    → k.current_process ≡ some q
    → Born k.store h.view (q ∷ []) k.process_count (h.view.rank q + 1) p ps t
    → Created k q h p ps (start_child p (with_store k t))
unfolding start_child insert_child
start_child-Created k q p ps t h e b =
    let c = k.exception_state in
    let x = record (t.pcb p) {
      p_s = k.state_at c.reg_a1;
      p_prio = c.reg_a2;
      p_support_struct = c.reg_a3;
    } in
    let i =
      IsStore-pcbs b.store (write t.pcb p x) (same_field (λ y. y.p_sem_add) p t x refl)
        (same_field (λ y. y.p_parent) p t x refl) in
    let s₁ = record t { pcb = write t.pcb p x } in
    let ne : q ≢ p = λ d. b.store.queues.held_distinct.0.0 (sym d) in
    let older : write h.view.rank p (h.view.rank q + 1) q
        < write h.view.rank p (h.view.rank q + 1) p =
      rw
        (
          write_self h.view.rank p (h.view.rank q + 1),
          write_ne h.view.rank p (h.view.rank q + 1) q ne,
        )
        (omega arith) in
    let v = record (h.view) {
      free = ps;
      children = write h.view.children p [];
      rank = write h.view.rank p (h.view.rank q + 1);
    } in
    let (u, run, j) = insert_proc_q-IsStore s₁ b.rings v p (q ∷ []) i in
    let t₁ = with_links s₁ u in
    let at_p : t₁.pcb p ≡ x = write_self t.pcb p x in
    let root : (t₁.pcb p).p_parent ≡ none =
      ap (λ (y : Pcb). y.p_parent) at_p ∙ ap (λ (y : Pcb). y.p_parent) b.fresh in
    let final =
      insert_child-IsStore q p j j.placed.small_held.0 (held_Fresh j q (inl refl))
        i.placed.small_held.0 (held_Fresh i p (inl refl)) root older in
    let finish : Store → ℕ → Kernel = λ s parent. advance (
      set_a0 (s.pcb p).p_pid (record (set_pcb p x (with_store k t)) {
        store = insert_child parent p s;
        process_count = incr k.process_count;
      })) in
    let pid : (t₁.pcb p).p_pid ≡ k.store.next_pid =
      ap (λ (y : Pcb). y.p_pid) at_p ∙ ap (λ (y : Pcb). y.p_pid) b.fresh in
    let same_prio : (y : ℕ) → prio (finish t₁ q).store y ≡ prio s₁ y = λ y.
      ap rank (
        same_field (λ (z : Pcb). z.p_prio) p t₁ (record (t₁.pcb p) { p_parent = some q }) refl y) in
    record {
      answer = record {
        kernel = finish t₁ q;
        outcome =
            ap (λ o. o >>= λ s. k.current_process >>= λ parent. resume (finish s parent)) run
            ∙ ap (λ o. o >>= λ parent. resume (finish t₁ parent)) e;
        state = ap (λ a. record c { reg_a0 = a; pc_epc = (c.pc_epc + 4) % 2 ^ 32 }) pid;
        current = refl;
      };
      keeps = record { rings = _; view = _; store = final; counted = b.counted };
      left = refl;
      before = ahead (prio s₁) p h.view.ready;
      behind_it = behind (prio s₁) p h.view.ready;
      were_ready = sym (ahead-behind (prio s₁) p h.view.ready);
      are_ready = refl;
      not_lower =
          All-map (ahead (prio s₁) p h.view.ready)
            (λ y le. (let a = same_prio y in let b = same_prio p in omega arith))
            (All-ahead (prio s₁) p h.view.ready);
      lower = λ y ys d.
          (let a = same_prio y in
            let b = same_prio p in
            let lt = behind-lower (prio s₁) p h.view.ready y ys d in omega arith);
      children =
          write_self v.children q (v.children q ++ p ∷ [])
          ∙ ap (λ cs. cs ++ p ∷ []) (write_ne h.view.children p [] q ne);
      filled =
          write_self t₁.pcb p (record (t₁.pcb p) { p_parent = some q })
          ∙ (ap (λ (y : Pcb). record y { p_parent = some q }) at_p
              ∙ ap
                  (λ (y : Pcb). record y {
                    p_parent = some q;
                    p_s = k.state_at c.reg_a1;
                    p_prio = c.reg_a2;
                    p_support_struct = c.reg_a3;
                  })
                  b.fresh);
      others = λ y d.
          write_ne t₁.pcb p (record (t₁.pcb p) { p_parent = some q }) y d
          ∙ (write_ne t.pcb p x y d ∙ b.others y d);
      numbered = b.numbered;
      count = refl;
    }

-- Let the invariant of the whole kernel hold while the process `q` runs. If no PCB is free,
-- `CreateProcess` returns -1 to the caller behind the call and changes neither the lists, the PCBs
-- nor the count of processes. Else it takes the first free PCB, fills it in with the state, the priority and
-- the support structure that the registers name and with the counter of ids, which it also returns
-- and which moves on, makes it the last child of `q` and puts it into the ready queue, in front of
-- the first process of a lower priority, while the others keep their order; the count of processes is incremented modulo 2 ^ 32, all other
-- PCBs are unchanged, `q` runs on, and the invariant holds.
pub create_process-Creates :
    (k : Kernel) (q : ℕ) (h : Holds k (q ∷ []))
    → k.current_process ≡ some q
    → Creates k q h h.view.free (create_process k)
unfolding create_process
create_process-Creates k q h e = at h.view.free (
    alloc_pcb-Births k.store h.rings h.view (q ∷ []) k.process_count (h.view.rank q + 1) h.store
      h.counted)
  where
    at :
        (ps : List ℕ)
        → Births k.store h.view (q ∷ []) k.process_count (h.view.rank q + 1) ps (alloc_pcb k.store)
        → Creates k q h ps (create_allocated k (alloc_pcb k.store))
    at [] w = rw w (record {
      answer = record {
        kernel = advance (set_a0 (2 ^ 32 - 1) k);
        outcome = refl;
        state = refl;
        current = refl;
      };
      same_store = refl;
      same_count = refl;
    })
    at (p ∷ ps) (t, run, b) =
        subst (λ o. Created k q h p ps (create_allocated k o)) (sym run)
          (start_child-Created k q p ps t h e b)

-- `CreateProcess` returns to its caller and keeps the invariant, whether or not a PCB is left.
pub create_process-Keeps :
    (k : Kernel) (q : ℕ) → k.current_process ≡ some q → IsKernel k → Keeps (create_process k)
create_process-Keeps k q e n =
    let h = current-Holds k q e n in at h h.view.free (create_process-Creates k q h e)
  where
    at :
        (h : Holds k (q ∷ [])) (ps : List ℕ)
        → Creates k q h ps (create_process k)
        → Keeps (create_process k)
    at h [] w = subst Keeps (sym w.outcome) (
        resume-Keeps w.kernel q (w.current ∙ e)
          (IsKernel-of w.kernel w.same_store w.same_count (ap running w.current) n))
    at h (p ∷ ps) w = subst Keeps (sym w.outcome) (
        resume-Keeps w.kernel q (w.current ∙ e)
          (IsKernel-of w.kernel refl refl (ap running (w.current ∙ e)) w.keeps))
