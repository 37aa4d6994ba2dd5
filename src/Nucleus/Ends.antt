-- ===== src/Nucleus/Ends.antt =====
-- `terminateProcessTree` of phase2/syscalls.c on one process, and the invariant of the whole kernel.
use progetto_so.Base.{
  ℕ, ◌<◌, ◌≡◌, ◌≢◌, ◌⊎◌, refl, sym, ap, subst, ◌∙◌, inl, inr, true, false, Bool-cases, Option, none,
  some, [], ◌∷◌, arith, Fresh, In, In-Fresh, not-In, length, write, ==_ne, if◌then◌else◌, ◌>>=◌,
}
use progetto_so.Memory.{maxproc, ready_queue, with_links}
use progetto_so.Pcb.{free_pcb, out_proc_q}
use progetto_so.Pcb.Queues.{out_proc_q-missing}
use progetto_so.Asl.Inv.{some_inj}
use progetto_so.Kernel.{Platform, Kernel, incr, decr, with_store}
use progetto_so.Terminate.{is_current, unblock, unready, terminate_one, is_device_semaphore}
use progetto_so.Nucleus.{IsStore, IsKernel, running}
use progetto_so.Nucleus.Ready.{ready_small}
use progetto_so.Nucleus.Frames.{Frame}
use progetto_so.Nucleus.Progeny.{Descends, Cull}
use progetto_so.Nucleus.Deaths.{
  Dying, free_pcb-IsStore, free_short, out_ready-Dying, out_waiting-Dying,
}

-- A function returns, `p` is free then, and all of a smaller rank than `p` is as it was.
pub record Ended (k : Kernel) (n : IsKernel k) (p : ℕ) (o : Option Kernel) : Type 0 where
  pub kernel : Kernel
  pub outcome : o ≡ some kernel
  pub keeps : IsKernel kernel
  pub frame : Frame k kernel n keeps (n.view.rank p)
  pub dead : In p keeps.view.free
  pub cull : Cull k kernel n keeps p

is_current-true : (p : ℕ) (o : Option ℕ) → is_current p o ≡ true → o ≡ some p
is_current-true p none e = cc
is_current-true p (some q) e = (let h : q ≡ p = ground arith in ap some h)

is_current-false : (p : ℕ) (o : Option ℕ) → is_current p o ≡ false → ¬ (In p (running o))
is_current-false p none e m = elim m [ ]
is_current-false p (some q) e (inl m) = ground arith
is_current-false p (some q) e (inr m) = elim m [ ]

-- The PCB is freed at last.
abbrev buried : ℕ → Kernel → Option Kernel
buried p j = some (record j { store = free_pcb p j.store; process_count = decr j.process_count })

module _ (m : Platform) {k : Kernel} (n : IsKernel k) (p : ℕ) (small : p < maxproc)
    (alive : Fresh p n.view.free) (root : (k.store.pcb p).p_parent ≡ none)
    (leaf : n.view.children p ≡ []) where
  bury :
      (j : Kernel)
      → Dying k.store n.view (running j.current_process) p j.store
      → j.process_count ≡ k.process_count
      → (j.current_process ≡ none) ⊎ (j.current_process ≡ k.current_process)
      → ((x : ℕ) → k.current_process ≡ some x → x ≢ p → j.current_process ≡ some x)
      → Ended k n p (buried p j)
  unfolding free_pcb
  bury j d same stays runs =
      let short = free_short p d.store (subst (Fresh p) (sym d.same_free) alive) in
      let total = n.counted in
      let lens = ap (length {A = ℕ}) d.same_free in
      record {
        kernel = record j { store = free_pcb p j.store; process_count = decr j.process_count };
        outcome = refl;
        keeps = record {
          rings = _;
          view = record (d.view) { free = p ∷ d.view.free };
          store =
              free_pcb-IsStore p d.store (d.same_parents p ∙ root)
                (ap (λ f. f p) d.same_children ∙ leaf);
          counted = omega arith;
        };
        frame = record {
          ranks = d.same_rank;
          kids = λ x _. ap (λ f. f x) d.same_children;
          survives = λ x lt fresh. (
            (λ e. (let h = ap n.view.rank e in omega arith)),
            subst (Fresh x) (sym d.same_free) fresh,
          );
          parents = λ x _. d.same_parents x;
          stays = stays;
        };
        dead = inl refl;
        cull = record {
          freed = λ x i. elim i [
            | inl e ↦ inr (subst (Descends k.store p) (sym e) Descends.self)
            | inr h ↦ inl (subst (In x) d.same_free h)
          ];
          still_free = λ x i. inr (subst (In x) (sym d.same_free) i);
          parents = λ x _. d.same_parents x;
          runs = λ x h fresh. runs x h fresh.0;
        };
      }

  -- The running process ends.
  terminate_current :
      k.current_process ≡ some p → Ended k n p (buried p (record k { current_process = none }))
  terminate_current e =
      bury (record k { current_process = none })
        (record {
          rings = n.rings;
          view = n.view;
          store = subst (λ c. IsStore k.store n.rings n.view (running c)) e n.store;
          same_free = refl;
          same_children = refl;
          same_rank = refl;
          same_parents = λ x. refl;
        })
        refl (inl refl) (λ x h ne. absurd (ne (some_inj (sym h ∙ e))))

  -- Another process ends, which is ready or waits.
  terminate_other :
      ¬ (In p (running k.current_process))
      → Ended k n p ((out_proc_q ready_queue p k.store >>= unready m p k) >>= buried p)
  unfolding unblock
  terminate_other idle = elim (In-Fresh p n.view.ready) [
    | inl r ↦
        (let (t, run, d) = out_ready-Dying p n.store r in
          subst (λ o. Ended k n p ((o >>= unready m p k) >>= buried p)) (sym run)
            (bury (with_store k (with_links k.store t)) d refl (inr refl) (λ x h _. h)))
    | inr f ↦ elim (n.store.placed.somewhere p small) [
      | inl g ↦ absurd (not-In p n.view.free alive g)
      | inr (inl g) ↦ absurd (not-In p n.view.ready f g)
      | inr (inr (inl g)) ↦ absurd (idle g)
      | inr (inr (inr (sem, g))) ↦
          (let (t, named, ne, run, d) = out_waiting-Dying p n.store sem g in
            let missing =
              out_proc_q-missing k.store n.rings ready_queue n.store.asl.linked
                n.store.queues.ready_head p n.view.ready n.store.queues.ready_entries f
                (ready_small n.store) in
            let address = (k.store.pcb p).p_sem_add in
            rw (missing, ==_ne address 0 (λ z. ne (sym named ∙ z)), run)
              (bury
                (record k {
                  store = t;
                  word = write k.word address (incr (k.word address));
                  soft_block_count =
                      if is_device_semaphore m address
                      then decr k.soft_block_count
                      else k.soft_block_count;
                })
                d refl (inr refl) (λ x h _. h)))
    ]
  ]

  -- The part of `terminateProcessTree` that follows the loop.
  pub terminate_one-Ended : Ended k n p (terminate_one m p k)
  unfolding terminate_one
  terminate_one-Ended = elim (Bool-cases (is_current p k.current_process)) [
    | inl yes_it ↦ rw yes_it (terminate_current (is_current-true p k.current_process yes_it))
    | inr no_it ↦ rw no_it (terminate_other (is_current-false p k.current_process no_it))
  ]
