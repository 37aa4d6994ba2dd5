-- ===== src/Tests/Data.antt =====
-- Small memories: links that point to themselves, and a table of PCBs whose priority is the index.
use progetto_so.Pcb.Tree.{IsTree, sibling_role}
use progetto_so.Base.{
  ℕ, ◌+◌, refl, ◌∙◌, sym, ap, inl, inr, arith, eq_cases, write, write_ne, some, [], ◌∷◌,
}
use progetto_so.ListX.{Links, init_list_head, list_add, list_add_tail}
use progetto_so.ListX.Rings.{Rings, Linked, head, in_ring, put, new_head, loose-ne-in_ring}
use progetto_so.ListX.Operations.{Linked-init_head, Linked-list_add, Linked-list_add_tail}
use progetto_so.Memory.{Pcb, Store, p_list, p_child, p_sib, ready_queue, pcb_free_h, with_links}
use progetto_so.Pcb.{reset_pcb}
use progetto_so.Pcb.Alloc.{no_rings, no_rings-Linked}

abbrev pub loops : Links
loops = record { next = λ a. a; prev = λ a. a }

abbrev pub numbered : ℕ → Pcb
numbered i = record (reset_pcb (i + 1)) { p_prio = i }

abbrev pub blank : Store
blank = record { links = loops; pcb = numbered; s_key = λ _. 0; next_pid = 1 }

-- A memory with an empty list at `h`.
abbrev pub one_head : ℕ → Links
one_head h = init_list_head h loops

abbrev pub one_head_rings : ℕ → Rings
one_head_rings h = new_head h no_rings

pub one_head-Linked : (h : ℕ) → Linked (one_head h) (one_head_rings h)
one_head-Linked h =
    Linked-init_head loops no_rings (no_rings-Linked loops) h (λ k. loose-ne-in_ring k)

-- The ready queue holds the PCBs 7 and 4.
abbrev pub queued_links : Links
queued_links =
    list_add_tail (p_list 4) ready_queue (list_add (p_list 7) ready_queue (one_head ready_queue))

abbrev pub queued_rings : Rings
queued_rings =
    put (p_list 4) ready_queue (p_list 7 ∷ p_list 4 ∷ [])
      (put (p_list 7) ready_queue (p_list 7 ∷ []) (one_head_rings ready_queue))

pub queued-Linked : Linked queued_links queued_rings
queued-Linked =
    Linked-list_add_tail _ _
      (Linked-list_add _ _ (one_head-Linked ready_queue) ready_queue refl (p_list 7) refl)
      ready_queue refl (p_list 4) refl

abbrev pub queued : Store
queued = with_links blank queued_links

-- The PCB 3 is free.
abbrev pub one_free : Store
one_free = with_links blank (list_add (p_list 3) pcb_free_h (one_head pcb_free_h))

abbrev pub one_free_rings : Rings
one_free_rings = put (p_list 3) pcb_free_h (p_list 3 ∷ []) (one_head_rings pcb_free_h)

pub one_free-Linked : Linked one_free.links one_free_rings
one_free-Linked = Linked-list_add _ _ (one_head-Linked pcb_free_h) pcb_free_h refl (p_list 3) refl

-- The PCB 2 has no children.
abbrev pub childless : Store
childless = with_links blank (one_head (p_child 2))

-- The PCB 2 has the child 6.
abbrev pub parental : Store
parental = record blank {
  links = list_add_tail (p_sib 6) (p_child 2) (one_head (p_child 2));
  pcb = write numbered 6 (record (numbered 6) { p_parent = some 2 });
}

abbrev pub parental_rings : Rings
parental_rings = put (p_sib 6) (p_child 2) (p_sib 6 ∷ []) (one_head_rings (p_child 2))

pub parental-Linked : Linked parental.links parental_rings
parental-Linked =
    Linked-list_add_tail _ _ (one_head-Linked (p_child 2)) (p_child 2) refl (p_sib 6) refl

pub childless-IsTree : IsTree childless (one_head_rings (p_child 2)).role
childless-IsTree c = write_ne no_rings.role (p_child 2) head (p_sib c) (omega arith)

pub parental-IsTree : IsTree parental parental_rings.role
parental-IsTree c = elim (eq_cases c 6) [
  | inl e ↦ rw e
  | inr ne ↦
      write_ne (one_head_rings (p_child 2)).role (p_sib 6) (in_ring (p_child 2)) (p_sib c)
        (omega arith)
      ∙ (write_ne no_rings.role (p_child 2) head (p_sib c) (omega arith)
          ∙ ap (λ (x : Pcb). sibling_role x.p_parent)
              (sym (write_ne numbered 6 (record (numbered 6) { p_parent = some 2 }) c ne)))
]
