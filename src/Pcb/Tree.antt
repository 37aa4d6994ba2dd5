-- ===== src/Pcb/Tree.antt =====
-- The functions of phase1/pcb.c on the process tree.
use mathlib.Core.List.{map-append}
use progetto_so.Base.{
  ℕ, ◌≡◌, refl, sym, ap, subst, ◌∙◌, ◌≢◌, inl, inr, Option, none, some, List, [], ◌∷◌, ◌++◌, map,
  arith, first, write, write_self, write_ne, eq_cases,
}
use progetto_so.ListX.{list_del}
use progetto_so.ListX.Rings.{
  Rings, Linked, Role, head, loose, in_ring, put, take_out, Linked-remove,
}
use progetto_so.ListX.Operations.{next-first, Linked-list_add_tail, list_empty-nil, list_empty-cons}
use progetto_so.Memory.{Store, p_child, p_sib, container_of, with_links}
use progetto_so.Pcb.{set_parent, insert_child, remove_child, out_child}

-- What the link to the siblings is for, by the parent of the PCB.
abbrev pub sibling_role : Option ℕ → Role
sibling_role none = loose
sibling_role (some q) = in_ring (p_child q)

-- A PCB is in the list of children of the PCB that it names as its parent, and in no other.
abbrev pub IsTree : Store → (ℕ → Role) → Type 0
IsTree s role = (c : ℕ) → role (p_sib c) ≡ sibling_role (s.pcb c).p_parent

-- Everything but the links and the parent of `p` is as it was.
abbrev pub Reparented : ℕ → Option ℕ → Store → Store → Type 0
Reparented p parent s t =
    (t.pcb p ≡ record (s.pcb p) { p_parent = parent })
    × ((q : ℕ) → q ≢ p → t.pcb q ≡ s.pcb q)
    × (t.s_key ≡ s.s_key)
    × (t.next_pid ≡ s.next_pid)

Reparented-set_parent :
    (p : ℕ) (parent : Option ℕ) (s : Store) → Reparented p parent s (set_parent p parent s)
Reparented-set_parent p parent s = (
  write_self s.pcb p (record (s.pcb p) { p_parent = parent }),
  (λ q ne. write_ne s.pcb p (record (s.pcb p) { p_parent = parent }) q ne),
  refl,
  refl,
)

-- Changing the parent of `p` and the role of its link together keeps the tree.
IsTree-set :
    (s : Store) (role : ℕ → Role) (p : ℕ) (parent : Option ℕ) (v : Role)
    → IsTree s role
    → v ≡ sibling_role parent
    → IsTree (set_parent p parent s) (write role (p_sib p) v)
IsTree-set s role p parent v t e c = elim (eq_cases c p) [
  | inl q ↦ rw q (
      write_self role (p_sib p) v
      ∙ (e ∙ ap (λ x. sibling_role x.p_parent) (sym (Reparented-set_parent p parent s).0)))
  | inr ne ↦
      write_ne role (p_sib p) v (p_sib c) (omega arith)
      ∙ (t c ∙ ap (λ x. sibling_role x.p_parent) (sym ((Reparented-set_parent p parent s).1 c ne)))
]

module _ (s : Store) (r : Rings) (l : Linked s.links r) (tree : IsTree s r.role) where
  -- In memory where `r` describes every list and the lists of children agree with the parents,
  -- `insertChild` makes a PCB without a parent the last child of `prnt`: the lists and the
  -- parents still agree, and all but its links and its parent stays.
  pub insert_child-IsTree :
      (prnt p : ℕ) (cs : List ℕ)
      → r.role (p_child prnt) ≡ head
      → (s.pcb p).p_parent ≡ none
      → r.list (p_child prnt) ≡ map p_sib cs
      → let r₁ = put (p_sib p) (p_child prnt) (map p_sib (cs ++ p ∷ [])) r in
        Linked (insert_child prnt p s).links r₁
        × IsTree (insert_child prnt p s) r₁.role
        × Reparented p (some prnt) s (insert_child prnt p s)
  unfolding insert_child
  insert_child-IsTree prnt p cs hh root e = (
    subst (λ xs. Linked (insert_child prnt p s).links (put (p_sib p) (p_child prnt) xs r))
        (ap (λ xs. xs ++ p_sib p ∷ []) e ∙ sym (map-append p_sib cs (p ∷ [])))
        (Linked-list_add_tail s.links r l (p_child prnt) hh (p_sib p)
          (tree p ∙ ap sibling_role root)),
    IsTree-set s r.role p (some prnt) (in_ring (p_child prnt)) tree refl,
    Reparented-set_parent p (some prnt) s,
  )

  -- `c` stops being a child of `p`, whose children are `cs` then.
  abbrev pub Orphaned : ℕ → ℕ → List ℕ → Store → Type 0
  Orphaned c p cs t =
      let r₁ = take_out (p_sib c) (p_child p) (map p_sib cs) r in
      Linked t.links r₁ × IsTree t r₁.role × Reparented c none s t

  abbrev pub ChildRemoved : ℕ → List ℕ → Option ℕ × Store → Type 0
  ChildRemoved p [] o = o ≡ (none, s)
  ChildRemoved p (c ∷ cs) o = (t : Store) × (o ≡ (some c, t)) × Orphaned c p cs t

  -- In such memory `removeChild` returns NULL and changes nothing if `p` has no children; else it
  -- returns the first one, which has no parent then, and the lists and the parents still agree.
  pub remove_child-ChildRemoved :
      (p : ℕ) (cs : List ℕ)
      → r.role (p_child p) ≡ head
      → r.list (p_child p) ≡ map p_sib cs
      → ChildRemoved p cs (remove_child p s)
  unfolding remove_child
  remove_child-ChildRemoved p [] hh e = rw (list_empty-nil s.links r l (p_child p) hh e)
  remove_child-ChildRemoved p (c ∷ cs) hh e =
      let start : s.links.next (p_child p) ≡ p_sib c =
        next-first s.links r l (p_child p) hh ∙ ap (λ xs. first xs (p_child p)) e in
      let at_c : container_of (p_sib c) 2 ≡ c = omega arith in
      rw (list_empty-cons s.links r l (p_child p) hh (p_sib c) (map p_sib cs) e, start, at_c)
        (
          set_parent c none (with_links s (list_del (p_sib c) s.links)),
          refl,
          (
            Linked-remove s.links r (p_child p) (p_sib c) [] (map p_sib cs) l hh e,
            IsTree-set s r.role c none loose tree refl,
            Reparented-set_parent c none (with_links s (list_del (p_sib c) s.links)),
          ),
        )

  -- `outChild` of a PCB without a parent returns NULL and changes nothing.
  pub out_child-none : (c : ℕ) → (s.pcb c).p_parent ≡ none → out_child c s ≡ (none, s)
  unfolding out_child
  out_child-none c e = rw (e, out_child)

  -- In such memory `outChild` of a PCB with a parent takes it out of the parent's children,
  -- wherever it stands among them, and the lists and the parents still agree.
  pub out_child-Orphaned :
      (c p : ℕ) (ys zs : List ℕ)
      → (s.pcb c).p_parent ≡ some p
      → r.role (p_child p) ≡ head
      → r.list (p_child p) ≡ map p_sib (ys ++ c ∷ zs)
      → (t : Store) × (out_child c s ≡ (some c, t)) × Orphaned c p (ys ++ zs) t
  unfolding out_child
  out_child-Orphaned c p ys zs e hh m = (
    set_parent c none (with_links s (list_del (p_sib c) s.links)),
    rw (e, out_child),
    (
      subst (λ xs. Linked (list_del (p_sib c) s.links) (take_out (p_sib c) (p_child p) xs r))
          (sym (map-append p_sib ys zs))
          (Linked-remove s.links r (p_child p) (p_sib c) (map p_sib ys) (map p_sib zs) l hh
            (m ∙ map-append p_sib ys (c ∷ zs))),
      IsTree-set s r.role c none loose tree refl,
      Reparented-set_parent c none (with_links s (list_del (p_sib c) s.links)),
    ),
  )
