-- ===== src/Nucleus/Orphans.antt =====
-- `removeChild` and `outChild` in the whole kernel: a process loses its parent.
use progetto_so.Base.{
  ℕ, ◌≡◌, ◌≢◌, sym, ap, subst, ◌∙◌, inl, inr, some, List, ◌∷◌, ◌++◌, map, arith, In, In-remove,
  eq_cases, write, write_self, write_ne, All-map,
}
use progetto_so.ListX.Rings.{Rings, loose, take_out}
use progetto_so.Memory.{
  Pcb, Store, p_list, p_child, p_sib, s_procq, semd_h, semd_free_h, ready_queue, pcb_free_h,
}
use progetto_so.Pcb.Tree.{Orphaned}
use progetto_so.Asl.Inv.{some-ne-none, queue_at, find_key}
use progetto_so.Asl.Agree.{Agrees}
use progetto_so.Nucleus.{IsFamily, IsPlaced, View, IsStore}
use progetto_so.Nucleus.Family.{IsAsl-changed}

-- The process `c` has the parent `q`.
module _ {s : Store} {r : Rings} {v : View} {hs : List ℕ} (c q : ℕ) (us ws : List ℕ) (t : Store)
    (i : IsStore s r v hs) (child : (s.pcb c).p_parent ≡ some q) (was : v.children q ≡ us ++ c ∷ ws)
    (w : Orphaned s r i.asl.linked i.family.tree c q (us ++ ws) t) where
  abbrev orphaned_rings : Rings
  orphaned_rings = take_out (p_sib c) (p_child q) (map p_sib (us ++ ws)) r

  sib_role : (a : ℕ) → a ≢ p_sib c → orphaned_rings.role a ≡ r.role a
  sib_role a ne = write_ne r.role (p_sib c) loose a ne

  sib_list : (a : ℕ) → a ≢ p_child q → orphaned_rings.list a ≡ r.list a
  sib_list a ne = write_ne r.list (p_child q) (map p_sib (us ++ ws)) a ne

  orphaned-Agrees : Agrees r orphaned_rings
  orphaned-Agrees = record {
    procq_role = λ j. sib_role (s_procq j) (omega arith);
    procq_list = λ j. sib_list (s_procq j) (omega arith);
    active_role = sib_role semd_h (omega arith);
    active_list = sib_list semd_h (omega arith);
    free_role = sib_role semd_free_h (omega arith);
    free_list = sib_list semd_free_h (omega arith);
  }

  -- Who has a parent now is another process, and had it before.
  still_child : (d x : ℕ) → (t.pcb d).p_parent ≡ some x → (d ≢ c) × ((s.pcb d).p_parent ≡ some x)
  still_child d x e = elim (eq_cases d c) [
    | inl h ↦ absurd (
        some-ne-none
          (sym e ∙ (ap (λ y. (t.pcb y).p_parent) h ∙ ap (λ (y : Pcb). y.p_parent) w.2.0)))
    | inr h ↦ (h, sym (ap (λ (y : Pcb). y.p_parent) (w.2.1 d h)) ∙ e)
  ]

  orphaned-IsFamily : IsFamily t orphaned_rings v.free (write v.children q (us ++ ws)) v.rank
  orphaned-IsFamily =
      let f = i.family in
      record {
        tree = w.1;
        apart = λ x k e. f.apart x k (sym (sib_role (p_child x) (omega arith)) ∙ e);
        heads = λ x lt fresh. sib_role (p_child x) (omega arith) ∙ f.heads x lt fresh;
        lists = λ x lt fresh. elim (eq_cases x q) [
          | inl d ↦ rw d (
              write_self r.list (p_child q) (map p_sib (us ++ ws))
              ∙ ap (map p_sib) (sym (write_self v.children q (us ++ ws))))
          | inr d ↦
              sib_list (p_child x) (omega arith)
              ∙ (f.lists x lt fresh ∙ ap (map p_sib) (sym (write_ne v.children q (us ++ ws) x d)))
        ];
        registered =
            λ d x e. (let (ne, h) = still_child d x e in still d x ne (f.registered d x h));
        alive = λ d x e. f.alive d x (still_child d x e).1;
        ranked = λ d x e. f.ranked d x (still_child d x e).1;
      }
    where
      still : (d x : ℕ) → d ≢ c → In d (v.children x) → In d (write v.children q (us ++ ws) x)
      still d x ne m = elim (eq_cases x q) [
        | inl h ↦ rw h (
            subst (In d) (sym (write_self v.children q (us ++ ws)))
              (elim (In-remove d c us ws
                (subst (In d) was (subst (λ y. In d (v.children y)) h m))) [
                  | inl e ↦ absurd (ne e)
                  | inr m ↦ m
                ]))
        | inr h ↦ subst (In d) (sym (write_ne v.children q (us ++ ws) x h)) m
      ]

  pub orphaned-IsStore :
      IsStore t orphaned_rings (record v { children = write v.children q (us ++ ws) }) hs
  orphaned-IsStore =
      let qs = i.queues in
      let same : (x : ℕ) → (t.pcb x).p_sem_add ≡ (s.pcb x).p_sem_add = λ x. elim (eq_cases x c) [
        | inl d ↦ rw d (ap (λ (y : Pcb). y.p_sem_add) w.2.0)
        | inr d ↦ ap (λ (y : Pcb). y.p_sem_add) (w.2.1 x d)
      ] in
      record {
        asl = IsAsl-changed i.asl w.0 orphaned-Agrees w.2.2 (λ x j e. same x);
        semds = i.semds;
        queues = record {
          ready_head = sib_role ready_queue (omega arith) ∙ qs.ready_head;
          ready_entries = sib_list ready_queue (omega arith) ∙ qs.ready_entries;
          free_head = sib_role pcb_free_h (omega arith) ∙ qs.free_head;
          free_entries = sib_list pcb_free_h (omega arith) ∙ qs.free_entries;
          held_loose = All-map hs (λ x e. sib_role (p_list x) (omega arith) ∙ e) qs.held_loose;
          held_distinct = qs.held_distinct;
        };
        placed =
            subst (λ f. IsPlaced v.free v.ready hs (λ k. queue_at v.queue (find_key f k v.js)))
              (sym w.2.2) i.placed;
        family = orphaned-IsFamily;
      }
