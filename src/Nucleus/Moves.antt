-- ===== src/Nucleus/Moves.antt =====
-- The lists of the kernel when a PCB moves between the hand and one of the queues outside the
-- semaphores.
use progetto_so.Base.{
  ℕ, ◌≡◌, ◌⊎◌, inl, refl, sym, ap, subst, ◌∙◌, List, [], ◌∷◌, ◌++◌, map, arith, All, All-map, Fresh,
  Distinct, Distinct-map, All-In, In-right, write, write_self, write_ne,
}
use progetto_so.ListX.{Links}
use progetto_so.ListX.Rings.{
  Rings, Linked, Role, head, loose, in_ring, put, take_out, loose-ne-in_ring,
}
use progetto_so.Memory.{
  Store, p_list, p_child, p_sib, s_procq, semd_h, semd_free_h, ready_queue, pcb_free_h, with_links,
}
use progetto_so.Pcb.Tree.{sibling_role}
use progetto_so.Asl.Agree.{Agrees, IsAsl-agree}
use progetto_so.Nucleus.{IsFamily, View, IsStore}
use progetto_so.Nucleus.Places.{IsPlaced-unready, IsPlaced-ready}

-- The tree depends on the lists of children and the parents alone.
pub record SameTree (s t : Store) (r r' : Rings) : Type 0 where
  pub child_role : (i : ℕ) → r'.role (p_child i) ≡ r.role (p_child i)
  pub child_list : (i : ℕ) → r'.list (p_child i) ≡ r.list (p_child i)
  pub sib_role : (i : ℕ) → r'.role (p_sib i) ≡ r.role (p_sib i)
  pub parents : (i : ℕ) → (t.pcb i).p_parent ≡ (s.pcb i).p_parent

pub IsFamily-same :
    {s t : Store} {r r' : Rings} {free : List ℕ} {children : ℕ → List ℕ} {rank : ℕ → ℕ}
    → SameTree s t r r'
    → IsFamily s r free children rank
    → IsFamily t r' free children rank
IsFamily-same e f = record {
  tree = λ c. e.sib_role c ∙ (f.tree c ∙ ap sibling_role (sym (e.parents c)));
  apart = λ p k q. f.apart p k (sym (e.child_role p) ∙ q);
  heads = λ p lt fresh. e.child_role p ∙ f.heads p lt fresh;
  lists = λ p lt fresh. e.child_list p ∙ f.lists p lt fresh;
  registered = λ c p q. f.registered c p (sym (e.parents c) ∙ q);
  alive = λ c p q. f.alive c p (sym (e.parents c) ∙ q);
  ranked = λ c p q. f.ranked c p (sym (e.parents c) ∙ q);
}

-- The role of the entries of a queue.
pub member_role :
    (r : Rings) (h : ℕ) (ps : List ℕ) (t : Links)
    → Linked t r
    → r.role h ≡ head
    → r.list h ≡ map p_list ps
    → All (λ p. r.role (p_list p) ≡ in_ring h) ps
member_role r h ps t l hh e = go ps (subst (All (λ x. r.role x ≡ in_ring h)) e (l h hh).members)
  where
    go :
        (qs : List ℕ)
        → All (λ x. r.role x ≡ in_ring h) (map p_list qs)
        → All (λ p. r.role (p_list p) ≡ in_ring h) qs
    go = elim [ [] ↦ λ _. tt | q ∷ (qs → ih) ↦ λ a. (a.0, ih a.1) ]

pub member-Distinct :
    (r : Rings) (h : ℕ) (ps : List ℕ) (t : Links)
    → Linked t r
    → r.role h ≡ head
    → r.list h ≡ map p_list ps
    → Distinct ps
member-Distinct r h ps t l hh e = Distinct-map p_list ps (subst Distinct e (l h hh).distinct)

-- What is in a queue is none of those that are in no queue.
pub Fresh-loose :
    (role : ℕ → Role) (p h : ℕ) (qs : List ℕ)
    → role (p_list p) ≡ in_ring h
    → All (λ q. role (p_list q) ≡ loose) qs
    → Fresh p qs
Fresh-loose role p h qs e =
    All-map qs (λ q l same. loose-ne-in_ring h (sym l ∙ (ap (λ x. role (p_list x)) (sym same) ∙ e)))

pub Fresh-queued :
    (role : ℕ → Role) (p h : ℕ) (qs : List ℕ)
    → role (p_list p) ≡ loose
    → All (λ q. role (p_list q) ≡ in_ring h) qs
    → Fresh p qs
Fresh-queued role p h qs e =
    All-map qs (λ q l same. loose-ne-in_ring h (sym e ∙ (ap (λ x. role (p_list x)) same ∙ l)))

-- The PCB `p` changes its role, and the list at `h` its entries.
module _ (r : Rings) (p h : ℕ) (x : Role) (xs : List ℕ) where
  abbrev pub moved : Rings
  moved = record { role = write r.role (p_list p) x; list = write r.list h xs }

  module _ (outside : (h ≡ ready_queue) ⊎ (h ≡ pcb_free_h)) where
    pub moved-Agrees : Agrees r moved
    moved-Agrees = record {
      procq_role = λ j. write_ne r.role (p_list p) x (s_procq j) (omega arith);
      procq_list = λ j. write_ne r.list h xs (s_procq j) (omega arith);
      active_role = write_ne r.role (p_list p) x semd_h (omega arith);
      active_list = write_ne r.list h xs semd_h (omega arith);
      free_role = write_ne r.role (p_list p) x semd_free_h (omega arith);
      free_list = write_ne r.list h xs semd_free_h (omega arith);
    }

    pub moved-SameTree :
        (s t : Store) → ((i : ℕ) → (t.pcb i).p_parent ≡ (s.pcb i).p_parent) → SameTree s t r moved
    moved-SameTree s t same = record {
      child_role = λ i. write_ne r.role (p_list p) x (p_child i) (omega arith);
      child_list = λ i. write_ne r.list h xs (p_child i) (omega arith);
      sib_role = λ i. write_ne r.role (p_list p) x (p_sib i) (omega arith);
      parents = same;
    }

  -- Those that were in no queue still are, `p` aside.
  pub moved_loose :
      (qs : List ℕ)
      → Fresh p qs
      → All (λ q. r.role (p_list q) ≡ loose) qs
      → All (λ q. moved.role (p_list q) ≡ loose) qs
  moved_loose [] f a = tt
  moved_loose (q ∷ qs) f a = (
    write_ne r.role (p_list p) x (p_list q) (λ e. f.0 (omega arith)) ∙ a.0,
    moved_loose qs f.1 a.1,
  )

module _ {s : Store} {r : Rings} (v : View) (p : ℕ) (hs us ws : List ℕ) where
  -- A process is taken off the ready queue.
  pub take_ready-IsStore :
      IsStore s r (record v { ready = us ++ p ∷ ws }) (hs)
      → (t : Links) → Linked t (take_out (p_list p) ready_queue (map p_list (us ++ ws)) r)
      → IsStore
          (with_links s t)
          (take_out (p_list p) ready_queue (map p_list (us ++ ws)) r)
          (record v { ready = us ++ ws })
          (p ∷ hs)
  take_ready-IsStore i t l =
      let q = i.queues in
      let at_p : r.role (p_list p) ≡ in_ring ready_queue =
        All-In (λ x. r.role (p_list x) ≡ in_ring ready_queue) p (us ++ p ∷ ws)
          (member_role r ready_queue (us ++ p ∷ ws) s.links i.asl.linked q.ready_head
            q.ready_entries)
          (In-right p us (p ∷ ws) (inl refl)) in
      record {
        asl =
            IsAsl-agree i.asl _ t l
              (moved-Agrees r p ready_queue loose (map p_list (us ++ ws)) (inl refl));
        semds = i.semds;
        queues = record {
          ready_head = write_ne r.role (p_list p) loose ready_queue (omega arith) ∙ q.ready_head;
          ready_entries = write_self r.list ready_queue (map p_list (us ++ ws));
          free_head = write_ne r.role (p_list p) loose pcb_free_h (omega arith) ∙ q.free_head;
          free_entries =
              write_ne r.list ready_queue (map p_list (us ++ ws)) pcb_free_h (omega arith)
              ∙ q.free_entries;
          held_loose = (
            write_self r.role (p_list p) loose,
            moved_loose r p ready_queue loose (map p_list (us ++ ws)) hs
                (Fresh-loose r.role p ready_queue hs at_p q.held_loose) q.held_loose,
          );
          held_distinct = (Fresh-loose r.role p ready_queue hs at_p q.held_loose, q.held_distinct);
        };
        placed = IsPlaced-unready p us ws i.placed;
        family =
            IsFamily-same
              (moved-SameTree r p ready_queue loose (map p_list (us ++ ws)) (inl refl) s
                (with_links s t) (λ _. refl))
              i.family;
      }

  -- A process in hand is put into the ready queue.
  pub put_ready-IsStore :
      IsStore s r (record v { ready = us ++ ws }) (p ∷ hs)
      → (t : Links) → Linked t (put (p_list p) ready_queue (map p_list (us ++ p ∷ ws)) r)
      → IsStore
          (with_links s t)
          (put (p_list p) ready_queue (map p_list (us ++ p ∷ ws)) r)
          (record v { ready = us ++ p ∷ ws })
          (hs)
  put_ready-IsStore i t l =
      let q = i.queues in
      record {
        asl = IsAsl-agree i.asl _ t l (
            moved-Agrees r p ready_queue (in_ring ready_queue) (map p_list (us ++ p ∷ ws))
              (inl refl));
        semds = i.semds;
        queues = record {
          ready_head =
              write_ne r.role (p_list p) (in_ring ready_queue) ready_queue (omega arith)
              ∙ q.ready_head;
          ready_entries = write_self r.list ready_queue (map p_list (us ++ p ∷ ws));
          free_head =
              write_ne r.role (p_list p) (in_ring ready_queue) pcb_free_h (omega arith)
              ∙ q.free_head;
          free_entries =
              write_ne r.list ready_queue (map p_list (us ++ p ∷ ws)) pcb_free_h (omega arith)
              ∙ q.free_entries;
          held_loose =
              moved_loose r p ready_queue (in_ring ready_queue) (map p_list (us ++ p ∷ ws)) hs
                q.held_distinct.0 q.held_loose.1;
          held_distinct = q.held_distinct.1;
        };
        placed = IsPlaced-ready p us ws i.placed;
        family =
            IsFamily-same
              (moved-SameTree r p ready_queue (in_ring ready_queue) (map p_list (us ++ p ∷ ws))
                (inl refl) s (with_links s t) (λ _. refl))
              i.family;
      }
