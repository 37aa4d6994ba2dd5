-- ===== src/Asl/Place.antt =====
-- The loop of `insertBlocked` of phase1/asl.c that finds the place of a new descriptor.
use mathlib.Core.List.{append_assoc, append-nil}
use progetto_so.Base.{
  ℕ, zero, suc, ◌<◌, ◌≡◌, refl, sym, subst, ◌∙◌, inl, inr, Option, some, List, [], ◌∷◌, ◌++◌, map,
  arith, Fresh, first, length, ltb, ==_ne, Bool-cases, write,
}
use progetto_so.ListX.{Links, list_add_tail}
use progetto_so.ListX.Rings.{Rings, Linked, head, loose, put}
use progetto_so.ListX.Operations.{
  Linked-list_add_tail, Linked-list_add_before, next-mid, entry-ne-head,
}
use progetto_so.Memory.{Store, s_link, semd_h, container_of, with_links}
use progetto_so.Asl.{link_semd_from}
use progetto_so.Asl.Order.{below, above}

module _ (s : Store) (r : Rings) (j : ℕ) (l : Linked s.links r) (hh : r.role semd_h ≡ head)
    (hj : r.role (s_link j) ≡ loose) where
  abbrev pub Placed : List ℕ → Option Store → Type 0
  Placed xs o = (t : Links) × (o ≡ some (with_links s t)) × Linked t (put (s_link j) semd_h xs r)

  pub link_semd_from-Placed :
      (n : ℕ) (ys zs : List ℕ)
      → r.list semd_h ≡ ys ++ map s_link zs
      → length zs < n
      → Placed
          (ys
            ++ (map s_link (below s.s_key (s.s_key j) zs)
                ++ s_link j ∷ map s_link (above s.s_key (s.s_key j) zs)))
          (link_semd_from n j (first (map s_link zs) semd_h) s)
  unfolding link_semd_from below above
  link_semd_from-Placed zero ys zs e f = absurd (omega arith)
  link_semd_from-Placed (suc n) ys [] e f = (
    list_add_tail (s_link j) semd_h s.links,
    refl,
    subst
        (λ xs.
          Linked (list_add_tail (s_link j) semd_h s.links)
            (put (s_link j) semd_h (xs ++ s_link j ∷ []) r))
        (e ∙ append-nil ys) (Linked-list_add_tail s.links r l semd_h hh (s_link j) hj),
  )
  link_semd_from-Placed (suc n) ys (z ∷ zs) e f =
      let ne = entry-ne-head s.links r l semd_h hh (s_link z) ys (map s_link zs) e in
      let at_z : container_of (s_link z) 4 ≡ z = omega arith in
      elim (Bool-cases (ltb (s.s_key j) (s.s_key z))) [
        | inl over ↦
            rw (==_ne (s_link z) semd_h ne, at_z, over)
              (
                list_add_tail (s_link j) (s_link z) s.links,
                refl,
                Linked-list_add_before s.links r l semd_h hh (s_link j) (s_link z) ys
                    (map s_link zs) hj e,
              )
        | inr under ↦
            rw
              (
                ==_ne (s_link z) semd_h ne,
                at_z,
                under,
                next-mid s.links r l semd_h hh (s_link z) ys (map s_link zs) e,
              )
              (subst (λ xs. Placed xs (link_semd_from n j (first (map s_link zs) semd_h) s))
                (append_assoc ys (s_link z ∷ []) (
                  map s_link (below s.s_key (s.s_key j) zs)
                  ++ s_link j ∷ map s_link (above s.s_key (s.s_key j) zs)))
                (link_semd_from-Placed n (ys ++ s_link z ∷ []) zs
                  (e ∙ sym (append_assoc ys (s_link z ∷ []) (map s_link zs))) (omega arith)))
      ]

pub below-cong :
    (key : ℕ → ℕ) (k j : ℕ) (js : List ℕ)
    → Fresh j js
    → (below (write key j k) k js ≡ below key k js) × (above (write key j k) k js ≡ above key k js)
unfolding below above
below-cong key k j [] f = (refl, refl)
below-cong key k j (i ∷ js) f =
    let n = f.0 in let (a, b) = below-cong key k j js f.1 in (ground arith, ground arith)
