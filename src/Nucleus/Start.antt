-- ===== src/Nucleus/Start.antt =====
-- `main` of phase2/initial.c, and the invariant of the whole kernel.
use progetto_so.Base.{
  ℕ, zero, suc, ◌≤◌, eq_cases, ◌+◌, ◌<◌, ◌≡◌, ◌≢◌, refl, sym, ap, subst, ◌∙◌, inl, inr, none, some,
  List, [], ◌∷◌, arith, All, In, not-In, ◌>>=◌,
}
use progetto_so.ListX.Rings.{loose-ne-in_ring}
use progetto_so.Memory.{maxproc, p_child, p_sib, with_links}
use progetto_so.Pcb.{init_pcbs, mk_empty_proc_q}
use progetto_so.Pcb.Alloc.{table, free_rings, init_pcbs-free}
use progetto_so.Pcb.Tree.{sibling_role}
use progetto_so.Asl.Inv.{some-ne-none}
use progetto_so.Asl.Init.{init_asl-IsAsl}
use progetto_so.Kernel.{Platform, Kernel, set_pcb, incr, scheduler}
use progetto_so.Initial.{boot, main, first_process, first_state}
use progetto_so.Initial.Boot.{boot-Booted, boot_rings, init_pcbs-NoAsl}
use progetto_so.Initial.First.{boot_loose}
use progetto_so.Nucleus.{IsFamily, View, IsStore, IsNucleus, Keeps}
use progetto_so.Nucleus.Ready.{scheduler-Keeps, insert_proc_q-IsNucleus}
use progetto_so.Nucleus.Pcbs.{IsNucleus-set_pcb}
use progetto_so.Nucleus.Birth.{alloc_pcb-Births}

-- The numbers below `n`, from above.
descending : ℕ → List ℕ
descending zero = []
descending (suc n) = n ∷ descending n

In-descending : (n p : ℕ) → p < n → In p (descending n)
unfolding descending
In-descending zero p lt = omega arith
In-descending (suc n) p lt = elim (eq_cases p n) [
  | inl e ↦ inl e
  | inr ne ↦ inr (In-descending n p (omega arith))
]

small_descending : (n m : ℕ) → n ≤ m → All (λ p. p < m) (descending n)
unfolding descending
small_descending zero m le = tt
small_descending (suc n) m le = (omega arith, small_descending n m (omega arith))

is_descending : descending maxproc ≡ table
unfolding descending
is_descending = refl

In-table : (p : ℕ) → p < maxproc → In p table
In-table p lt = subst (In p) is_descending (In-descending maxproc p lt)

small_table : All (λ p. p < maxproc) table
small_table =
    subst (All (λ p. p < maxproc)) is_descending (small_descending maxproc maxproc (omega arith))

-- All is free.
abbrev pub first_view : View
first_view = record {
  js = [];
  fs = table;
  queue = λ _. [];
  ready = [];
  free = table;
  children = λ _. [];
  rank = λ _. 0;
}

boot_pcb : (m : Platform) (k : Kernel) → (boot m k).store.pcb ≡ k.store.pcb
unfolding boot mk_empty_proc_q
boot_pcb m k =
    (init_asl-IsAsl (init_pcbs k.store) free_rings (init_pcbs-NoAsl k.store)).1
    ∙ (init_pcbs-free k.store).2.0

module _ (m : Platform) (k : Kernel) (cleared : (p : ℕ) → (k.store.pcb p).p_parent ≡ none) where
  no_parent : (p q : ℕ) → ((boot m k).store.pcb p).p_parent ≢ some q
  no_parent p q e = some-ne-none (sym e ∙ (ap (λ f. (f p).p_parent) (boot_pcb m k) ∙ cleared p))

  boot-IsFamily : IsFamily (boot m k).store boot_rings table (λ _. []) (λ _. 0)
  boot-IsFamily = record {
    tree = λ c.
        boot_loose (p_sib c) (omega arith) (omega arith)
        ∙ ap sibling_role (sym (ap (λ f. (f c).p_parent) (boot_pcb m k) ∙ cleared c));
    apart =
        λ p j e. loose-ne-in_ring j (sym (boot_loose (p_child p) (omega arith) (omega arith)) ∙ e);
    heads = λ p lt f. absurd (not-In p table f (In-table p lt));
    lists = λ p lt f. absurd (not-In p table f (In-table p lt));
    registered = λ c p e. absurd (no_parent c p e);
    alive = λ c p e. absurd (no_parent c p e);
    ranked = λ c p e. absurd (no_parent c p e);
  }

  -- The boot leaves the kernel with nothing in hand.
  pub boot-IsStore : IsStore (boot m k).store boot_rings first_view []
  unfolding progetto_so.Asl.Inv.find_key
  boot-IsStore =
      let b = boot-Booted m k in
      record {
        asl = b.asl;
        semds = refl;
        queues = record {
          ready_head = b.ready_head;
          ready_entries = b.ready;
          free_head = b.free_head;
          free_entries = b.free;
          held_loose = tt;
          held_distinct = tt;
        };
        placed = record {
          somewhere = λ p lt. inl (In-table p lt);
          small_free = small_table;
          small_ready = tt;
          small_held = tt;
          small_waits = λ j. tt;
          not_null = refl;
        };
        family = boot-IsFamily;
      }

  -- Of a machine whose PCBs name no parent, whatever else its memory holds, `main` ends, leaves the
  -- invariant of the whole kernel and gives the processor away as it should: to a process that is
  -- then the running one, or, if nothing is ready, as the counts of processes ask for.
  pub main-Keeps : Keeps (main m k)
  unfolding main
  main-Keeps =
      let j = boot m k in
      let b = boot-Booted m k in
      let (s, got, w) =
        alloc_pcb-Births j.store boot_rings first_view [] j.process_count 0 boot-IsStore
          (ap (λ x. x + 20) b.counts.0) in
      let p : ℕ = 19 in
      let n : IsNucleus s (incr j.process_count) (p ∷ []) = record {
        rings = w.rings;
        view = _;
        store = w.store;
        counted = w.counted;
      } in
      let (t, run, i) = insert_proc_q-IsNucleus s (incr j.process_count) p [] n in
      let x = record (s.pcb p) { p_s = first_state m j (s.pcb p).p_s } in
      subst (λ o. Keeps (first_process m j o >>= scheduler)) (sym got)
        (subst
          (λ o. Keeps (
            (o >>= λ t. some (
              set_pcb p (record (t.pcb p) { p_s = first_state m j (t.pcb p).p_s })
                (record j { store = t; process_count = incr j.process_count })))
            >>= scheduler))
          (sym run)
          (scheduler-Keeps
            (set_pcb p x
              (record j { store = with_links s t; process_count = incr j.process_count }))
            b.counts.2 (IsNucleus-set_pcb i p x refl refl)))
