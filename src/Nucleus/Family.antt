-- ===== src/Nucleus/Family.antt =====
-- The process tree of the whole kernel when a PCB is allocated and when it gets a parent.
use progetto_so.Base.{
  ℕ, ◌≡◌, ◌≢◌, refl, sym, ap, subst, ◌∙◌, inl, inr, none, Option-cases, List, [], ◌∷◌, map, arith,
  All-of, All-map, Fresh, In, All-In, not-In, eq_cases, write, write_self, write_ne,
}
use progetto_so.ListX.Rings.{
  Rings, Linked, head, loose, in_ring, in_ring-injective, head-ne-in_ring,
}
use progetto_so.Memory.{
  Pcb, Store, p_list, p_child, p_sib, s_procq, semd_h, semd_free_h, ready_queue, pcb_free_h,
}
use progetto_so.Pcb.Tree.{sibling_role}
use progetto_so.Asl.Inv.{IsAsl, find_key, queue_at}
use progetto_so.Asl.Agree.{Agrees}
use progetto_so.Nucleus.{IsPlaced, IsFamily, View, IsStore}
use progetto_so.Nucleus.Places.{IsPlaced-born}
use progetto_so.Nucleus.Moves.{Fresh-loose, Fresh-queued, member_role}

-- The active semaphore list under any change that leaves its lists and the PCBs in its queues.
pub IsAsl-changed :
    {s t : Store} {r r' : Rings} {js fs : List ℕ} {queue : ℕ → List ℕ}
    → IsAsl s r js fs queue
    → Linked t.links r'
    → Agrees r r'
    → t.s_key ≡ s.s_key
    → ((q j : ℕ)
        → r.role (p_list q) ≡ in_ring (s_procq j)
        → (t.pcb q).p_sem_add ≡ (s.pcb q).p_sem_add)
    → IsAsl t r' js fs queue
IsAsl-changed {s} {t} {r} {js = js} {queue = queue} v l a keys same = record {
  core = record {
    linked = l;
    active_head = a.active_role ∙ v.active_head;
    free_head = a.free_role ∙ v.free_head;
    active = a.active_list ∙ v.active;
    free = a.free_list ∙ v.free;
    sorted = rw keys v.sorted;
    bounded = v.bounded;
    queues =
        All-map js
          (λ j q. record {
            at_head = a.procq_role j ∙ q.at_head;
            entries = a.procq_list j ∙ q.entries;
            named =
                All-of (λ p. (t.pcb p).p_sem_add ≡ t.s_key j) (queue j)
                  (λ p m.
                    same p j (
                      All-In (λ x. r.role (p_list x) ≡ in_ring (s_procq j)) p (queue j)
                        (member_role r (s_procq j) (queue j) s.links v.linked q.at_head q.entries)
                        m)
                    ∙ (All-In (λ x. (s.pcb x).p_sem_add ≡ s.s_key j) p (queue j) q.named m
                        ∙ ap (λ f. f j) (sym keys)));
            small = q.small;
          })
          v.queues;
    sentinels = λ j k e. v.sentinels j k (sym (a.procq_role j) ∙ e);
  };
  busy = v.busy;
}

-- A free PCB has no parent and is no parent.
pub free_orphan :
    {s : Store} {r : Rings} {free : List ℕ} {children : ℕ → List ℕ} {rank : ℕ → ℕ}
    → IsFamily s r free children rank
    → (p : ℕ) → In p free
    → (s.pcb p).p_parent ≡ none
free_orphan {s} {free = free} f p m = elim (Option-cases (s.pcb p).p_parent) [
  | inl e ↦ e
  | inr (q, e) ↦ absurd (not-In p free (f.alive p q e).2 m)
]

-- What is in hand is not free.
pub held_Fresh :
    {s : Store} {r : Rings} {v : View} {hs : List ℕ}
    → IsStore s r v hs
    → (p : ℕ) → In p hs
    → Fresh p v.free
held_Fresh {s} {r} {v} {hs} i p m =
    Fresh-queued r.role p pcb_free_h v.free
      (All-In (λ x. r.role (p_list x) ≡ loose) p hs i.queues.held_loose m)
      (member_role r pcb_free_h v.free s.links i.asl.linked i.queues.free_head
        i.queues.free_entries)

-- The lists once `p` is taken off the free list.
module _ (r : Rings) (p : ℕ) (ps : List ℕ) where
  abbrev new_rings : Rings
  new_rings = record {
    role = write (write r.role (p_list p) loose) (p_child p) head;
    list = write (write r.list pcb_free_h (map p_list ps)) (p_child p) [];
  }

  same_role : (a : ℕ) → a ≢ p_list p → a ≢ p_child p → new_rings.role a ≡ r.role a
  same_role a h g =
      write_ne (write r.role (p_list p) loose) (p_child p) head a g
      ∙ write_ne r.role (p_list p) loose a h

  same_list : (a : ℕ) → a ≢ pcb_free_h → a ≢ p_child p → new_rings.list a ≡ r.list a
  same_list a h g =
      write_ne (write r.list pcb_free_h (map p_list ps)) (p_child p) [] a g
      ∙ write_ne r.list pcb_free_h (map p_list ps) a h

  new_head_role : new_rings.role (p_child p) ≡ head
  new_head_role = write_self (write r.role (p_list p) loose) (p_child p) head

  new_head_list : new_rings.list (p_child p) ≡ []
  new_head_list = write_self (write r.list pcb_free_h (map p_list ps)) (p_child p) []

module _ {s : Store} (t : Store) {r : Rings} (v : View) (hs : List ℕ) (p n : ℕ) (ps : List ℕ)
    (i : IsStore s r (record v { free = p ∷ ps }) hs) (parent : (t.pcb p).p_parent ≡ none)
    (others : (q : ℕ) → q ≢ p → t.pcb q ≡ s.pcb q) where
  same_parent : (c : ℕ) → (t.pcb c).p_parent ≡ (s.pcb c).p_parent
  same_parent c = elim (eq_cases c p) [
    | inl e ↦ rw e (parent ∙ sym (free_orphan i.family p (inl refl)))
    | inr ne ↦ ap (λ (x : Pcb). x.p_parent) (others c ne)
  ]

  -- A new process has no parent and no children.
  born-IsFamily : IsFamily t (new_rings r p ps) ps (write v.children p []) (write v.rank p n)
  born-IsFamily =
      let f = i.family in
      record {
        tree = λ c.
            same_role r p ps (p_sib c) (omega arith) (omega arith)
            ∙ (f.tree c ∙ ap sibling_role (sym (same_parent c)));
        apart = λ q k e. elim (eq_cases q p) [
          | inl d ↦
              head-ne-in_ring k
                (sym (ap (λ x. (new_rings r p ps).role (p_child x)) d ∙ new_head_role r p ps) ∙ e)
          | inr d ↦ f.apart q k (sym (same_role r p ps (p_child q) (omega arith) (omega arith)) ∙ e)
        ];
        heads = λ q lt fresh. elim (eq_cases q p) [
          | inl d ↦ rw d (new_head_role r p ps)
          | inr d ↦
              same_role r p ps (p_child q) (omega arith) (omega arith) ∙ f.heads q lt (d, fresh)
        ];
        lists = λ q lt fresh. elim (eq_cases q p) [
          | inl d ↦ rw d (new_head_list r p ps ∙ ap (map p_sib) (sym (write_self v.children p [])))
          | inr d ↦
              same_list r p ps (p_child q) (omega arith) (omega arith)
              ∙ (f.lists q lt (d, fresh) ∙ ap (map p_sib) (sym (write_ne v.children p [] q d)))
        ];
        registered = λ c q e.
            let e' = sym (same_parent c) ∙ e in
            subst (In c) (sym (write_ne v.children p [] q (f.alive c q e').3.0))
              (f.registered c q e');
        alive =
            λ c q e. let (a, b, x, y) = f.alive c q (sym (same_parent c) ∙ e) in (a, b, x.1, y.1);
        ranked = λ c q e.
            let e' = sym (same_parent c) ∙ e in
            let (_, _, x, y) = f.alive c q e' in
            rw (write_ne v.rank p n c x.0, write_ne v.rank p n q y.0) (f.ranked c q e');
      }

  new_rings-Agrees : Agrees r (new_rings r p ps)
  new_rings-Agrees = record {
    procq_role = λ j. same_role r p ps (s_procq j) (omega arith) (omega arith);
    procq_list = λ j. same_list r p ps (s_procq j) (omega arith) (omega arith);
    active_role = same_role r p ps semd_h (omega arith) (omega arith);
    active_list = same_list r p ps semd_h (omega arith) (omega arith);
    free_role = same_role r p ps semd_free_h (omega arith) (omega arith);
    free_list = same_list r p ps semd_free_h (omega arith) (omega arith);
  }

  -- The whole store, with the new process in hand.
  pub born-IsStore :
      Linked t.links (new_rings r p ps)
      → t.s_key ≡ s.s_key
      → IsStore t
          (new_rings r p ps)
          (record v { free = ps; children = write v.children p []; rank = write v.rank p n })
          (p ∷ hs)
  born-IsStore l keys =
      let q = i.queues in
      let at_p : r.role (p_list p) ≡ in_ring pcb_free_h =
        (member_role r pcb_free_h (p ∷ ps) s.links i.asl.linked q.free_head q.free_entries).0 in
      let fresh = Fresh-loose r.role p pcb_free_h hs at_p q.held_loose in
      record {
        asl = IsAsl-changed i.asl l new_rings-Agrees keys (λ x j e.
            ap (λ (y : Pcb). y.p_sem_add)
              (others x (λ d.
                (let same =
                    in_ring-injective pcb_free_h (s_procq j)
                      (sym at_p ∙ (ap (λ y. r.role (p_list y)) (sym d) ∙ e)) in
                  omega arith))));
        semds = i.semds;
        queues = record {
          ready_head = same_role r p ps ready_queue (omega arith) (omega arith) ∙ q.ready_head;
          ready_entries =
              same_list r p ps ready_queue (omega arith) (omega arith) ∙ q.ready_entries;
          free_head = same_role r p ps pcb_free_h (omega arith) (omega arith) ∙ q.free_head;
          free_entries =
              write_ne (write r.list pcb_free_h (map p_list ps)) (p_child p) [] pcb_free_h
                (omega arith)
              ∙ write_self r.list pcb_free_h (map p_list ps);
          held_loose =
              All-of (λ x. (new_rings r p ps).role (p_list x) ≡ loose) (p ∷ hs)
                (λ x m.
                  write_ne (write r.role (p_list p) loose) (p_child p) head (p_list x) (omega arith)
                  ∙ unlisted x m);
          held_distinct = (fresh, q.held_distinct);
        };
        placed = IsPlaced-born p (
            subst (λ f. IsPlaced (p ∷ ps) v.ready hs (λ k. queue_at v.queue (find_key f k v.js)))
              (sym keys) i.placed);
        family = born-IsFamily;
      }
    where
      unlisted : (x : ℕ) → In x (p ∷ hs) → write r.role (p_list p) loose (p_list x) ≡ loose
      unlisted x m = elim (eq_cases x p) [
        | inl e ↦ rw e (write_self r.role (p_list p) loose)
        | inr ne ↦
            write_ne r.role (p_list p) loose (p_list x) (omega arith)
            ∙ All-In (λ y. r.role (p_list y) ≡ loose) x hs i.queues.held_loose
                (elim m [ inl e ↦ absurd (ne e) | inr h ↦ h ])
      ]
