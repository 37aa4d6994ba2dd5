-- ===== src/ListX/Operations.antt =====
-- The operations of headers/listx.h on the lists of one memory, in the words of their entries.
use mathlib.Core.Bool.{true, false}
use progetto_so.Base.{
  ℕ, ◌≡◌, refl, sym, ap, subst, ◌∙◌, ◌≢◌, inl, inr, true, false, List, [], ◌∷◌, ◌++◌, arith,
  All-right, first, last, write_ne, write_self, eq_cases,
}
use mathlib.Core.List.{append-nil}
use progetto_so.ListX.{Links, init_list_head, list_add, list_add_tail, list_empty}
use progetto_so.ListX.Ring.{Seg-next, Seg-prev, Seg-mid, Seg-elsewhere_init}
use progetto_so.ListX.Rings.{
  Rings, IsRing, Linked, put, new_head, head, loose, in_ring, head-ne-in_ring, loose-ne-in_ring,
  loose-ne-head, Fresh-of_role, Members-write, ring_of, IsRing-of, Linked-insert,
}

module _ (s : Links) (r : Rings) (l : Linked s r) (h : ℕ) where
  -- Linking a loose address to itself changes no list.
  pub Linked-init_loose : r.role h ≡ loose → Linked (init_list_head h s) r
  Linked-init_loose hn k hk =
      let i = l k hk in
      record {
        chain =
            Seg-elsewhere_init s h 0 0 k (r.list k)
              (λ q. loose-ne-head (sym hn ∙ ap r.role (sym q) ∙ hk))
              (Fresh-of_role r.role h k (r.list k) (λ q. loose-ne-in_ring k (sym hn ∙ q)) i.members)
              i.chain;
        members = i.members;
        distinct = i.distinct;
      }

  -- A loose address, or the head of an empty list, is made the head of an empty list.
  pub Linked-init_head :
      ((k : ℕ) → r.role h ≢ in_ring k) → Linked (init_list_head h s) (new_head h r)
  Linked-init_head out k hk = elim (eq_cases k h) [
    | inl q ↦
        subst (IsRing _ _) (sym q)
          (IsRing-of _ _ h (write_self r.list h []) ((ground arith, ground arith), tt, tt))
    | inr kh ↦
        let hk' : r.role k ≡ head = rw (write_ne r.role h head k kh) at hk in
        let i = l k hk' in
        let f = Fresh-of_role r.role h k (r.list k) (out k) i.members in
        IsRing-of _ _ k (write_ne r.list h [] k kh) (
          Seg-elsewhere_init s h 0 0 k (r.list k) kh f i.chain,
          Members-write r.role h k head (r.list k) f i.members,
          i.distinct,
        )
  ]

  module _ (hh : r.role h ≡ head) where
    pub next-first : s.next h ≡ first (r.list h) h
    next-first = Seg-next s h h (r.list h) (l h hh).chain

    pub prev-last : s.prev h ≡ last h (r.list h)
    prev-last = Seg-prev s h h (r.list h) (l h hh).chain

    -- `list_add` puts the entry in front.
    pub Linked-list_add :
        (n : ℕ) → r.role n ≡ loose → Linked (list_add n h s) (put n h (n ∷ r.list h) r)
    unfolding list_add
    Linked-list_add n hn = rw next-first (Linked-insert s r h n [] (r.list h) l hh hn refl)

    -- `list_add_tail` puts the entry at the end.
    pub Linked-list_add_tail :
        (n : ℕ) → r.role n ≡ loose → Linked (list_add_tail n h s) (put n h (r.list h ++ n ∷ []) r)
    unfolding list_add_tail
    Linked-list_add_tail n hn =
        rw prev-last (Linked-insert s r h n (r.list h) [] l hh hn (sym (append-nil (r.list h))))

    -- `list_add_tail` at an entry puts the new one in front of it.
    pub Linked-list_add_before :
        (n x : ℕ) (ys zs : List ℕ)
        → r.role n ≡ loose
        → r.list h ≡ ys ++ x ∷ zs
        → Linked (list_add_tail n x s) (put n h (ys ++ n ∷ x ∷ zs) r)
    unfolding list_add_tail
    Linked-list_add_before n x ys zs hn e =
        rw ((Seg-mid s h h x ys zs (ring_of s r h e (l h hh)).0).0)
          (Linked-insert s r h n ys (x ∷ zs) l hh hn e)

    -- The entry behind an entry.
    pub next-mid : (x : ℕ) (ys zs : List ℕ) → r.list h ≡ ys ++ x ∷ zs → s.next x ≡ first zs h
    next-mid x ys zs e = (Seg-mid s h h x ys zs (ring_of s r h e (l h hh)).0).1

    -- The role of an entry.
    pub role-mid : (x : ℕ) (ys zs : List ℕ) → r.list h ≡ ys ++ x ∷ zs → r.role x ≡ in_ring h
    role-mid x ys zs e =
        (All-right (λ y. r.role y ≡ in_ring h) ys (x ∷ zs) (ring_of s r h e (l h hh)).1).0

    -- An entry is not the head.
    pub entry-ne-head : (x : ℕ) (ys zs : List ℕ) → r.list h ≡ ys ++ x ∷ zs → x ≢ h
    entry-ne-head x ys zs e q = head-ne-in_ring h (sym hh ∙ ap r.role (sym q) ∙ role-mid x ys zs e)

    -- `list_empty` tells whether the list is empty.
    pub list_empty-nil : r.list h ≡ [] → list_empty h s ≡ true
    unfolding list_empty
    list_empty-nil e = let q : s.next h ≡ h = next-first ∙ ap (λ xs. first xs h) e in ground arith

    pub list_empty-cons : (x : ℕ) (xs : List ℕ) → r.list h ≡ x ∷ xs → list_empty h s ≡ false
    unfolding list_empty
    list_empty-cons x xs e =
        let q : s.next h ≡ x = next-first ∙ ap (λ ys. first ys h) e in
        let ne : x ≢ h = entry-ne-head x [] xs e in ground arith
