-- ===== src/Nucleus/Trees.antt =====
-- `terminateProcessTree` of phase2/syscalls.c as a whole, and the invariant of the whole kernel.
use progetto_so.Base.{
  ℕ, zero, suc, ◌+◌, ◌<◌, ◌≡◌, ◌≢◌, refl, sym, ap, subst, ◌∙◌, inl, inr, Option, none, some, List,
  [], ◌∷◌, map, arith, All, All-map, Fresh, Distinct, Distinct-length, In, length, write,
  write_self, write_ne, ◌>>=◌,
}
use progetto_so.ListX.Operations.{list_empty-nil, list_empty-cons}
use progetto_so.Memory.{maxproc, Pcb, p_child, p_sib}
use progetto_so.Pcb.{empty_child}
use progetto_so.Pcb.Tree.{remove_child-ChildRemoved}
use progetto_so.Kernel.{Platform, Kernel, with_store}
use progetto_so.Terminate.{
  after_removal, terminate_children, terminate_one, terminate_from, terminate_process_tree,
}
use progetto_so.Nucleus.{IsKernel}
use progetto_so.Nucleus.Orphans.{orphaned-IsStore}
use progetto_so.Nucleus.Progeny.{Cull, Cull-refl, Cull-trans, Cull-child}
use progetto_so.Nucleus.Frames.{Frame, Frame-refl, Frame-trans}
use progetto_so.Nucleus.Children.{child_parent, children_few, Fresh-below}
use progetto_so.Nucleus.Ends.{Ended, terminate_one-Ended}

-- The loop over the children of `p` returns when `p` has none left.
pub record Childless (k : Kernel) (n : IsKernel k) (p : ℕ) (o : Option Kernel) : Type 0 where
  pub kernel : Kernel
  pub outcome : o ≡ some kernel
  pub keeps : IsKernel kernel
  pub frame : Frame k kernel n keeps (n.view.rank p)
  pub alive : Fresh p keeps.view.free
  pub root : (kernel.store.pcb p).p_parent ≡ none
  pub leaf : keeps.view.children p ≡ []
  pub cull : Cull k kernel n keeps p

module _ (m : Platform) (rank : ℕ → ℕ) (p : ℕ) (small : p < maxproc)
    (terminate : ℕ → Kernel → Option Kernel)
    (ends : (j : Kernel) (n : IsKernel j) (c : ℕ)
      → n.view.rank ≡ rank
      → rank p < rank c
      → c < maxproc
      → Fresh c n.view.free
      → (j.store.pcb c).p_parent ≡ none
      → Ended j n c (terminate c j)) where
  terminate_children-Childless :
      (cs : List ℕ) (rounds : ℕ) (k : Kernel) (n : IsKernel k)
      → n.view.rank ≡ rank
      → Fresh p n.view.free
      → (k.store.pcb p).p_parent ≡ none
      → n.view.children p ≡ cs
      → length cs < rounds
      → Childless k n p (terminate_children m terminate rounds p k)
  unfolding terminate_children empty_child
  terminate_children-Childless [] zero k n er alive root e lt = absurd (omega arith)
  terminate_children-Childless (c ∷ cs) zero k n er alive root e lt = absurd (omega arith)
  terminate_children-Childless [] (suc rounds) k n er alive root e lt =
      let f = n.store.family in
      rw
        (list_empty-nil k.store.links n.rings n.store.asl.linked (p_child p) (f.heads p small alive)
          (f.lists p small alive ∙ ap (map p_sib) e))
        (record {
          kernel = k;
          outcome = refl;
          keeps = n;
          frame = Frame-refl k n (n.view.rank p);
          alive = alive;
          root = root;
          leaf = e;
          cull = Cull-refl k n p;
        })
  terminate_children-Childless (c ∷ cs) (suc rounds) k n er alive root e lt =
      let f = n.store.family in
      let entries = f.lists p small alive ∙ ap (map p_sib) e in
      let is_child = child_parent n.store p small alive c (subst (In c) (sym e) (inl refl)) in
      let (c_small, _, c_alive, _) = f.alive c p is_child in
      let older = f.ranked c p is_child in
      let ranks = ap (λ h. h p) er in
      let ranks_c = ap (λ h. h c) er in
      let (t, run, w) =
        remove_child-ChildRemoved k.store n.rings n.store.asl.linked f.tree p (c ∷ cs)
          (f.heads p small alive) entries in
      let n₁ : IsKernel (with_store k t) = record {
        rings = _;
        view = record (n.view) { children = write n.view.children p cs };
        store = orphaned-IsStore c p [] cs t n.store is_child e w;
        counted = n.counted;
      } in
      let ne : p ≢ c = λ d. (let h = ap n.view.rank d in omega arith) in
      let first : Ended (with_store k t) n₁ c (terminate c (with_store k t)) =
        ends (with_store k t) n₁ c er (omega arith) c_small c_alive
          (ap (λ (x : Pcb). x.p_parent) w.2.0) in
      let same_p = w.2.1 p ne in
      let rest =
        terminate_children-Childless cs rounds first.kernel first.keeps (first.frame.ranks ∙ er)
          (first.frame.survives p older alive)
          (first.frame.parents p older ∙ (ap (λ (x : Pcb). x.p_parent) same_p ∙ root))
          (first.frame.kids p older ∙ write_self n.view.children p cs) (omega arith) in
      let taken : Frame k (with_store k t) n n₁ (n.view.rank p) = record {
        ranks = refl;
        kids = λ x lt.
            write_ne n.view.children p cs x (λ d. (let h = ap n.view.rank d in omega arith));
        survives = λ x lt fresh. fresh;
        parents = λ x lt.
            ap (λ (y : Pcb). y.p_parent) (w.2.1 x (λ d. (let h = ap n.view.rank d in omega arith)));
        stays = inr refl;
      } in
      let after =
        Frame-trans k (with_store k t) first.kernel n n₁ first.keeps (n.view.rank p) (n.view.rank c)
          (omega arith) taken first.frame in
      let later = ap (λ h. h p) first.frame.ranks in
      rw
        (list_empty-cons k.store.links n.rings n.store.asl.linked (p_child p)
          (f.heads p small alive) (p_sib c) (map p_sib cs) entries)
        (subst
          (λ o.
            Childless k n p
              (after_removal m terminate k o >>= λ j. terminate_children m terminate rounds p j))
          (sym run)
          (subst (λ o. Childless k n p (o >>= λ j. terminate_children m terminate rounds p j))
            (sym first.outcome)
            (record {
              kernel = rest.kernel;
              outcome = rest.outcome;
              keeps = rest.keeps;
              frame =
                  Frame-trans k first.kernel rest.kernel n first.keeps rest.keeps (n.view.rank p)
                    (first.keeps.view.rank p) (omega arith) after rest.frame;
              alive = rest.alive;
              root = rest.root;
              leaf = rest.leaf;
              cull =
                  Cull-trans k first.kernel rest.kernel n first.keeps rest.keeps p
                    (Cull-child k (with_store k t) first.kernel n n₁ first.keeps p c refl is_child
                      (ap (λ (x : Pcb). x.p_parent) w.2.0)
                      (λ x other. ap (λ (y : Pcb). y.p_parent) (w.2.1 x other)) refl first.cull
                      first.dead)
                    rest.cull;
            })))

-- Enough levels: the ancestors `up` of `p` are distinct, so there are less than the PCBs.
module _ (m : Platform) (rank : ℕ → ℕ) where
  terminate_from-Ended :
      (levels p : ℕ) (up : List ℕ) (k : Kernel) (n : IsKernel k)
      → n.view.rank ≡ rank
      → levels + length up ≡ maxproc + 1
      → Distinct up
      → All (λ a. a < maxproc) up
      → All (λ a. rank a < rank p) up
      → p < maxproc
      → Fresh p n.view.free
      → (k.store.pcb p).p_parent ≡ none
      → Ended k n p (terminate_from m levels p k)
  unfolding terminate_from
  terminate_from-Ended zero p up k n er total d smalls lows small alive root =
      absurd (let few = Distinct-length maxproc up d smalls in omega arith)
  terminate_from-Ended (suc levels) p up k n er total d smalls lows small alive root =
      let fresh : Fresh p up = Fresh-below rank p up lows in
      let loop =
        terminate_children-Childless m rank p small (terminate_from m levels)
          (λ j n' c er' older c_small c_alive c_root.
            terminate_from-Ended levels c (p ∷ up) j n' er' (omega arith) (fresh, d) (small, smalls)
              (older, All-map up (λ a lt. omega arith) lows) c_small c_alive c_root)
          (n.view.children p) (maxproc + 1) k n er alive root refl
          (let few = children_few n.store p small alive in omega arith) in
      let last = terminate_one-Ended m loop.keeps p small loop.alive loop.root loop.leaf in
      subst (λ o. Ended k n p (o >>= terminate_one m p)) (sym loop.outcome)
        (record {
          kernel = last.kernel;
          outcome = last.outcome;
          keeps = last.keeps;
          frame =
              Frame-trans k loop.kernel last.kernel n loop.keeps last.keeps (n.view.rank p)
                (loop.keeps.view.rank p) (let h = ap (λ g. g p) loop.frame.ranks in omega arith)
                loop.frame last.frame;
          dead = last.dead;
          cull = Cull-trans k loop.kernel last.kernel n loop.keeps last.keeps p loop.cull last.cull;
        })

-- A process without a parent is terminated with all its progeny.
pub terminate_process_tree-Ended :
    (m : Platform) (p : ℕ) (k : Kernel) (n : IsKernel k)
    → p < maxproc
    → Fresh p n.view.free
    → (k.store.pcb p).p_parent ≡ none
    → Ended k n p (terminate_process_tree m p k)
unfolding terminate_process_tree
terminate_process_tree-Ended m p k n small alive root =
    terminate_from-Ended m n.view.rank (maxproc + 1) p [] k n refl (omega arith) tt tt tt small
      alive root
