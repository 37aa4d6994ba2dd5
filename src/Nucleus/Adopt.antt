-- ===== src/Nucleus/Adopt.antt =====
-- `insertChild` in the whole kernel: a process gets a parent.
use progetto_so.Base.{
  ℕ, ◌<◌, ◌≡◌, ◌≢◌, ◌⊎◌, refl, sym, ap, subst, ◌∙◌, inl, inr, none, some, List, [], ◌∷◌, ◌++◌, map,
  arith, Fresh, In, In-left, In-right, eq_cases, write, write_self, write_ne, All-map,
}
use progetto_so.ListX.Rings.{Rings, in_ring, put}
use progetto_so.Memory.{
  maxproc, Pcb, Store, p_list, p_child, p_sib, s_procq, semd_h, semd_free_h, ready_queue,
  pcb_free_h,
}
use progetto_so.Pcb.{insert_child}
use progetto_so.Pcb.Tree.{insert_child-IsTree}
use progetto_so.Asl.Inv.{some_inj}
use progetto_so.Asl.Agree.{Agrees}
use progetto_so.Nucleus.{IsFamily, View, IsStore}
use progetto_so.Nucleus.Family.{IsAsl-changed}

module _ {s : Store} {r : Rings} {v : View} {hs : List ℕ} (q p : ℕ) (i : IsStore s r v hs)
    (q_small : q < maxproc) (q_alive : Fresh q v.free) (p_small : p < maxproc)
    (p_alive : Fresh p v.free) (root : (s.pcb p).p_parent ≡ none)
    (older : v.rank q < v.rank p) where
  abbrev siblings : List ℕ
  siblings = v.children q ++ p ∷ []

  abbrev adopted_rings : Rings
  adopted_rings = put (p_sib p) (p_child q) (map p_sib siblings) r

  sib_role : (a : ℕ) → a ≢ p_sib p → adopted_rings.role a ≡ r.role a
  sib_role a ne = write_ne r.role (p_sib p) (in_ring (p_child q)) a ne

  sib_list : (a : ℕ) → a ≢ p_child q → adopted_rings.list a ≡ r.list a
  sib_list a ne = write_ne r.list (p_child q) (map p_sib siblings) a ne

  adopted-Agrees : Agrees r adopted_rings
  adopted-Agrees = record {
    procq_role = λ j. sib_role (s_procq j) (omega arith);
    procq_list = λ j. sib_list (s_procq j) (omega arith);
    active_role = sib_role semd_h (omega arith);
    active_list = sib_list semd_h (omega arith);
    free_role = sib_role semd_free_h (omega arith);
    free_list = sib_list semd_free_h (omega arith);
  }

  -- The new child or another one.
  child_cases :
      (c x : ℕ)
      → ((insert_child q p s).pcb c).p_parent ≡ some x
      → ((c ≡ p) × (x ≡ q)) ⊎ ((c ≢ p) × ((s.pcb c).p_parent ≡ some x))
  child_cases c x e =
      let (at_p, elsewhere, _, _) =
        (insert_child-IsTree s r i.asl.linked i.family.tree q p (v.children q)
          (i.family.heads q q_small q_alive) root (i.family.lists q q_small q_alive)).2 in
      elim (eq_cases c p) [
        | inl d ↦ inl (
          d,
          some_inj (
              sym e
              ∙ (ap (λ y. ((insert_child q p s).pcb y).p_parent) d
                  ∙ ap (λ (y : Pcb). y.p_parent) at_p)),
        )
        | inr d ↦ inr (d, sym (ap (λ (y : Pcb). y.p_parent) (elsewhere c d)) ∙ e)
      ]

  insert_child-IsFamily :
      IsFamily (insert_child q p s) adopted_rings v.free (write v.children q siblings) v.rank
  insert_child-IsFamily =
      let f = i.family in
      record {
        tree =
            (insert_child-IsTree s r i.asl.linked f.tree q p (v.children q)
              (f.heads q q_small q_alive) root (f.lists q q_small q_alive)).1;
        apart = λ x k e. f.apart x k (sym (sib_role (p_child x) (omega arith)) ∙ e);
        heads = λ x lt fresh. sib_role (p_child x) (omega arith) ∙ f.heads x lt fresh;
        lists = λ x lt fresh. elim (eq_cases x q) [
          | inl d ↦ rw d (
              write_self r.list (p_child q) (map p_sib siblings)
              ∙ ap (map p_sib) (sym (write_self v.children q siblings)))
          | inr d ↦
              sib_list (p_child x) (omega arith)
              ∙ (f.lists x lt fresh ∙ ap (map p_sib) (sym (write_ne v.children q siblings x d)))
        ];
        registered = λ c x e. elim (child_cases c x e) [
          | inl (d, h) ↦
              rw (h, d)
                (subst (In p) (sym (write_self v.children q siblings))
                  (In-right p (v.children q) (p ∷ []) (inl refl)))
          | inr (d, h) ↦ still c x (f.registered c x h)
        ];
        alive = λ c x e. elim (child_cases c x e) [
          | inl (d, h) ↦ rw (h, d) (p_small, q_small, p_alive, q_alive)
          | inr (d, h) ↦ f.alive c x h
        ];
        ranked = λ c x e. elim (child_cases c x e) [
          | inl (d, h) ↦ rw (h, d) older
          | inr (d, h) ↦ f.ranked c x h
        ];
      }
    where
      still : (c x : ℕ) → In c (v.children x) → In c (write v.children q siblings x)
      still c x m = elim (eq_cases x q) [
        | inl d ↦ rw d (
            subst (In c) (sym (write_self v.children q siblings))
              (In-left c (v.children q) (p ∷ []) (subst (λ y. In c (v.children y)) d m)))
        | inr d ↦ subst (In c) (sym (write_ne v.children q siblings x d)) m
      ]

  pub insert_child-IsStore :
      IsStore
        (insert_child q p s)
        adopted_rings
        (record v { children = write v.children q siblings })
        hs
  unfolding insert_child
  insert_child-IsStore =
      let w =
        insert_child-IsTree s r i.asl.linked i.family.tree q p (v.children q)
          (i.family.heads q q_small q_alive) root (i.family.lists q q_small q_alive) in
      let same : (x : ℕ) → ((insert_child q p s).pcb x).p_sem_add ≡ (s.pcb x).p_sem_add = λ x.
        elim (eq_cases x p) [
          | inl d ↦ rw d (ap (λ (y : Pcb). y.p_sem_add) w.2.0)
          | inr d ↦ ap (λ (y : Pcb). y.p_sem_add) (w.2.1 x d)
        ] in
      let qs = i.queues in
      record {
        asl = IsAsl-changed i.asl w.0 adopted-Agrees w.2.2 (λ x j e. same x);
        semds = i.semds;
        queues = record {
          ready_head = sib_role ready_queue (omega arith) ∙ qs.ready_head;
          ready_entries = sib_list ready_queue (omega arith) ∙ qs.ready_entries;
          free_head = sib_role pcb_free_h (omega arith) ∙ qs.free_head;
          free_entries = sib_list pcb_free_h (omega arith) ∙ qs.free_entries;
          held_loose = All-map hs (λ x e. sib_role (p_list x) (omega arith) ∙ e) qs.held_loose;
          held_distinct = qs.held_distinct;
        };
        placed = i.placed;
        family = insert_child-IsFamily;
      }
