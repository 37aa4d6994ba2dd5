-- ===== src/Nucleus/Children.antt =====
-- The children of a process in phase1/pcb.c, and how many there are.
use progetto_so.Base.{
  ℕ, ◌<◌, ◌≤◌, ◌≡◌, sym, ap, subst, ◌∙◌, inl, inr, Option, none, some, List, [], ◌∷◌, map, arith,
  All, All-of, Fresh, Distinct, Distinct-map, Distinct-length, In, length,
}
use progetto_so.ListX.Rings.{Rings, in_ring, loose-ne-in_ring, in_ring-injective}
use progetto_so.Memory.{maxproc, Store, p_child, p_sib}
use progetto_so.Pcb.Tree.{sibling_role}
use progetto_so.Nucleus.{View, IsStore}

sibling_of : (o : Option ℕ) (p : ℕ) → sibling_role o ≡ in_ring (p_child p) → o ≡ some p
sibling_of none p e = absurd (loose-ne-in_ring (p_child p) e)
sibling_of (some q) p e =
    let same = in_ring-injective (p_child q) (p_child p) e in
    let h : q ≡ p = omega arith in ap some h

-- The children of a process, which name it as their parent.
module _ {s : Store} {r : Rings} {v : View} {hs : List ℕ} (i : IsStore s r v hs) (p : ℕ)
    (small : p < maxproc) (alive : Fresh p v.free) where
  pub child_parent : (c : ℕ) → In c (v.children p) → (s.pcb c).p_parent ≡ some p
  child_parent c m =
      let ring = i.asl.linked (p_child p) (i.family.heads p small alive) in
      let members : All (λ x. r.role x ≡ in_ring (p_child p)) (map p_sib (v.children p)) =
        subst (All (λ x. r.role x ≡ in_ring (p_child p))) (i.family.lists p small alive)
          ring.members in
      sibling_of (s.pcb c).p_parent p (sym (i.family.tree c) ∙ at c (v.children p) members m)
    where
      at :
          (c : ℕ) (cs : List ℕ)
          → All (λ x. r.role x ≡ in_ring (p_child p)) (map p_sib cs)
          → In c cs
          → r.role (p_sib c) ≡ in_ring (p_child p)
      at c = elim [
        | [] ↦ λ a m. elim m [ ]
        | d ∷ (ds → ih) ↦
            λ a m. elim m [ inl e ↦ ap (λ x. r.role (p_sib x)) e ∙ a.0 | inr t ↦ ih a.1 t ]
      ]

  -- There are at most as many as PCBs.
  pub children_few : length (v.children p) ≤ maxproc
  children_few =
      let ring = i.asl.linked (p_child p) (i.family.heads p small alive) in
      Distinct-length maxproc (v.children p)
        (Distinct-map p_sib (v.children p)
          (subst Distinct (i.family.lists p small alive) ring.distinct))
        (All-of (λ c. c < maxproc) (v.children p)
          (λ c m. (i.family.alive c p (child_parent c m)).0))

-- Who has a rank below or above that of all the others is none of them.
pub Fresh-below : (rank : ℕ → ℕ) (p : ℕ) (up : List ℕ) → All (λ a. rank a < rank p) up → Fresh p up
Fresh-below rank p [] h = tt
Fresh-below rank p (x ∷ xs) h =
    ((λ e. (let same = ap rank e in let lt = h.0 in omega arith)), Fresh-below rank p xs h.1)

pub Fresh-above :
    (rank : ℕ → ℕ) (p : ℕ) (down : List ℕ) → All (λ a. rank p < rank a) down → Fresh p down
Fresh-above rank p [] h = tt
Fresh-above rank p (x ∷ xs) h =
    ((λ e. (let same = ap rank e in let lt = h.0 in omega arith)), Fresh-above rank p xs h.1)
