-- ===== src/Nucleus/Fates.antt =====
-- `TerminateProcess` of phase2/syscalls.c and Die and Pass up of phase2/traps.c and tlb.c, and the
-- invariant of the whole kernel.
use progetto_so.Base.{
  ℕ, ◌+◌, ◌≡◌, ◌≢◌, refl, sym, ap, subst, ◌∙◌, inl, inr, Option-cases, Option, none, some, Fresh,
  In, map, In-split, not-In, if_ind, ◌==◌, if◌then◌else◌, ◌>>=◌, write_self,
}
use progetto_so.Memory.{maxproc, Pcb, Store, p_sib}
use progetto_so.Asl.Inv.{some_inj, some-ne-none}
use progetto_so.Pcb.{out_child}
use progetto_so.Pcb.Tree.{out_child-none, out_child-Orphaned}
use progetto_so.Kernel.{Platform, Kernel, Support, with_store, scheduler}
use progetto_so.Terminate.{terminate_process_tree}
use progetto_so.Traps.{die, pass_up, pass_up_or_die}
use progetto_so.Syscalls.Common.{advance, resume}
use progetto_so.Syscalls.Processes.{
  root_from, find_pcb_by_pid, find_target, terminate_target, terminate_process,
}
use progetto_so.Nucleus.{IsStore, Holds, IsKernel, Keeps, running}
use progetto_so.Nucleus.Ready.{scheduler-Keeps, resume-Keeps}
use progetto_so.Nucleus.Family.{held_Fresh}
use progetto_so.Nucleus.Orphans.{orphaned-IsStore}
use progetto_so.Nucleus.Ends.{Ended}
use progetto_so.Nucleus.Trees.{terminate_process_tree-Ended}
use progetto_so.Nucleus.Target.{IsProcess, Found, target-Found}

-- `outChild` leaves the process `p` without a parent.
record Detached (k : Kernel) (n : IsKernel k) (p : ℕ) (t : Store) : Type 0 where
  keeps : IsKernel (with_store k t)
  same_free : keeps.view.free ≡ n.view.free
  root : (t.pcb p).p_parent ≡ none

out_child-Detached : (k : Kernel) (n : IsKernel k) (p : ℕ) → Detached k n p (out_child p k.store).1
out_child-Detached k n p = elim (Option-cases (k.store.pcb p).p_parent) [
  | inl e ↦
      rw (out_child-none k.store n.rings n.store.asl.linked n.store.family.tree p e)
        (record { keeps = n; same_free = refl; root = e })
  | inr (q, e) ↦
      (let f = n.store.family in
        let (_, q_small, _, q_alive) = f.alive p q e in
        let (us, ws, was, _) = In-split p (n.view.children q) (f.registered p q e) in
        let (t, run, w) =
          out_child-Orphaned k.store n.rings n.store.asl.linked f.tree p q us ws e
            (f.heads q q_small q_alive) (f.lists q q_small q_alive ∙ ap (λ xs. map p_sib xs) was) in
        rw run (record {
          keeps = record {
            rings = _;
            view = _;
            store = orphaned-IsStore p q us ws t n.store e was w;
            counted = n.counted;
          };
          same_free = refl;
          root = ap (λ (x : Pcb). x.p_parent) w.2.0;
        }))
]

-- `p` is cut off from its parent and terminated with its progeny.
cut_off-Ended :
    (m : Platform) (k : Kernel) (n : IsKernel k) (p : ℕ)
    → IsProcess n.view.free p
    → (d : Detached k n p (out_child p k.store).1) × Ended
        (with_store k (out_child p k.store).1)
        d.keeps
        p
        (terminate_process_tree m p (with_store k (out_child p k.store).1))
cut_off-Ended m k n p live =
    let d = out_child-Detached k n p in
    (
      d,
      terminate_process_tree-Ended m p (with_store k (out_child p k.store).1) d.keeps live.0
          (subst (Fresh p) (sym d.same_free) live.1) d.root,
    )

-- The running process is a process.
pub current-IsProcess :
    (k : Kernel) (n : IsKernel k) (p : ℕ) → k.current_process ≡ some p → IsProcess n.view.free p
current-IsProcess k n p e =
    let i = subst (λ c. IsStore k.store n.rings n.view (running c)) e n.store in
    (i.placed.small_held.0, held_Fresh i p (inl refl))

-- A process that has ended does not run.
pub dead_idle :
    (k : Kernel) (n : IsKernel k) (p : ℕ) → In p n.view.free → k.current_process ≢ some p
dead_idle k n p dead e = not-In p n.view.free (current-IsProcess k n p e).1 dead

module _ (m : Platform) (k : Kernel) (n : IsKernel k) where
  module _ (p : ℕ) (e : k.current_process ≡ some p) where
    die-Keeps : Keeps (die m p k)
    unfolding die
    die-Keeps =
        let (d, ended) = cut_off-Ended m k n p (current-IsProcess k n p e) in
        let j = ended.kernel in
        let gone : j.current_process ≡ none = elim ended.frame.stays [
          | inl h ↦ h
          | inr h ↦ absurd (dead_idle j ended.keeps p ended.dead (h ∙ e))
        ] in
        subst (λ o. Keeps (o >>= λ i. scheduler (record i { current_process = none })))
          (sym ended.outcome)
          (scheduler-Keeps (record j { current_process = none }) refl
            (subst (λ c. Holds j (running c)) gone ended.keeps))

    -- The context is read from the structure that the saved state was written to.
    passed :
        (type : ℕ)
        → (k.support (k.store.pcb p).p_support_struct).sup_except_context type
          ≡ ((pass_up m p type k).1.support (k.store.pcb p).p_support_struct).sup_except_context
              type
    unfolding pass_up
    passed type = sym (
        ap (λ (x : Support). x.sup_except_context type)
          (write_self k.support (k.store.pcb p).p_support_struct _))

    -- An exception of the running process that the nucleus does not serve.
    pub pass_up_or_die-Keeps : (type : ℕ) → Keeps (pass_up_or_die m type k)
    unfolding pass_up_or_die pass_up
    pass_up_or_die-Keeps type =
        subst
          (λ o. Keeps (
            o >>= λ q.
            if (k.store.pcb q).p_support_struct == 0 then die m q k else some (pass_up m q type k)))
          (sym e)
          (if_ind Keeps ((k.store.pcb p).p_support_struct == 0) (die m p k)
            (some (pass_up m p type k)) die-Keeps (n, (p, type, e, passed type)))

  terminate_target-Keeps :
      (p : ℕ)
      → k.current_process ≡ some p
      → (o : Option ℕ) → ((p : ℕ) → o ≡ some p → IsProcess n.view.free p)
      → Keeps (terminate_target m o k)
  unfolding terminate_target
  terminate_target-Keeps q e none live = resume-Keeps (advance k) q e n
  terminate_target-Keeps q e (some p) live =
      let (d, ended) = cut_off-Ended m k n p (live p refl) in
      subst
        (λ o.
          Keeps (
            o >>= λ j. elim j.current_process [ none ↦ scheduler j | some _ ↦ resume (advance j) ]))
        (sym ended.outcome) (at ended.kernel ended.keeps ended.kernel.current_process refl)
    where
      at :
          (j : Kernel)
          → IsKernel j
          → (o : Option ℕ) → j.current_process ≡ o
          → Keeps (elim o [ none ↦ scheduler j | some _ ↦ resume (advance j) ])
      at j l none h = scheduler-Keeps j h (subst (λ c. Holds j (running c)) h l)
      at j l (some q) h = resume-Keeps (advance j) q h l

  -- The search for the target ends, the target is terminated, and the exit fits.
  pub terminate_process-Keeps : (p : ℕ) → k.current_process ≡ some p → Keeps (terminate_process m k)
  unfolding terminate_process find_target
  terminate_process-Keeps p e =
      let live = current-IsProcess k n p e in
      let target = k.exception_state.reg_a1 in
      if_ind (λ o. Keeps (o >>= λ t. terminate_target m t k)) (target == 0) (some k.current_process)
        (k.current_process >>= λ q.
          root_from (maxproc + 1) q k.store >>= λ root. find_pcb_by_pid root target k.store)
        (terminate_target-Keeps p e k.current_process (λ q h. current-IsProcess k n q h))
        (subst
          (λ o. Keeps (
            (o >>= λ q.
            root_from (maxproc + 1) q k.store >>= λ root. find_pcb_by_pid root target k.store)
            >>= λ t. terminate_target m t k))
          (sym e)
          (let (root, climb, _, found) = target-Found n.store p target live in
            subst
              (λ o.
                Keeps
                  ((o >>= λ q. find_pcb_by_pid q target k.store) >>= λ t. terminate_target m t k))
              (sym climb) (at target root (find_pcb_by_pid root target k.store) found)))
    where
      at :
          (target root : ℕ) (o : Option (Option ℕ))
          → Found k.store n.view.free target root o
          → Keeps (o >>= λ t. terminate_target m t k)
      at target root none f = elim f [ ]
      at target root (some none) f =
          terminate_target-Keeps p e none (λ q h. absurd (some-ne-none (sym h)))
      at target root (some (some t)) f =
          terminate_target-Keeps p e (some t)
            (λ q h. subst (IsProcess n.view.free) (some_inj h) f.0)
