-- ===== src/ListX/Ring.antt =====
-- One list of headers/listx.h: the chain of links from a head through its entries.
use progetto_so.Base.{
  ℕ, ◌≡◌, sym, ◌∙◌, ◌≢◌, List, [], ◌∷◌, ◌++◌, arith, All, All-right, All-left, Fresh, Distinct,
  first, last, ne_first, ne_last,
}
use progetto_so.ListX.{Links, init_list_head, list_add_between, list_del_between}

-- From `a` the `next` fields lead through `xs` to `b`, and the `prev` fields lead back.
abbrev pub Seg : Links → ℕ → List ℕ → ℕ → Type 0
Seg s a [] b = (s.next a ≡ b) × (s.prev b ≡ a)
Seg s a (x ∷ xs) b = (s.next a ≡ x) × (s.prev x ≡ a) × Seg s x xs b

pub Seg-frame :
    (s t : Links) (a b : ℕ) (xs : List ℕ)
    → Seg s a xs b
    → t.next a ≡ s.next a
    → All (λ x. (t.next x ≡ s.next x) × (t.prev x ≡ s.prev x)) xs
    → t.prev b ≡ s.prev b
    → Seg t a xs b
Seg-frame s t a b [] g n h p = (n ∙ g.0, p ∙ g.1)
Seg-frame s t a b (x ∷ xs) g n h p = (n ∙ g.0, h.0.1 ∙ g.1, Seg-frame s t x b xs g.2 h.0.0 h.1 p)

pub Seg-next : (s : Links) (a b : ℕ) (xs : List ℕ) → Seg s a xs b → s.next a ≡ first xs b
Seg-next s a b [] g = g.0
Seg-next s a b (x ∷ xs) g = g.0

pub Seg-prev : (s : Links) (a b : ℕ) (xs : List ℕ) → Seg s a xs b → s.prev b ≡ last a xs
Seg-prev s a b [] g = g.1
Seg-prev s a b (x ∷ xs) g = Seg-prev s x b xs g.2

-- The neighbours of an entry.
pub Seg-mid :
    (s : Links) (a b n : ℕ) (ys zs : List ℕ)
    → Seg s a (ys ++ n ∷ zs) b
    → (s.prev n ≡ last a ys) × (s.next n ≡ first zs b)
Seg-mid s a b n [] zs g = (g.1, Seg-next s n b zs g.2)
Seg-mid s a b n (y ∷ ys) zs g = Seg-mid s y b n ys zs g.2

module _ (s : Links) (n p f : ℕ) where
  -- What an insertion between `p` and `f` leaves alone.
  list_add_between_same :
      (xs : List ℕ)
      → Fresh n xs
      → Fresh p xs
      → Fresh f xs
      → All
          (λ x.
            ((list_add_between n p f s).next x ≡ s.next x)
            × ((list_add_between n p f s).prev x ≡ s.prev x))
          xs
  unfolding list_add_between
  list_add_between_same [] fn fp ff = tt
  list_add_between_same (x ∷ xs) fn fp ff =
      ((ground arith, ground arith), list_add_between_same xs fn.1 fp.1 ff.1)

  -- What closing the gap between `p` and `f` and taking `n` out leaves alone.
  list_del_between_same :
      (xs : List ℕ)
      → Fresh n xs
      → Fresh p xs
      → Fresh f xs
      → All
          (λ x.
            ((init_list_head n (list_del_between p f s)).next x ≡ s.next x)
            × ((init_list_head n (list_del_between p f s)).prev x ≡ s.prev x))
          xs
  unfolding list_del_between
  list_del_between_same [] fn fp ff = tt
  list_del_between_same (x ∷ xs) fn fp ff =
      ((ground arith, ground arith), list_del_between_same xs fn.1 fp.1 ff.1)

module _ (s : Links) (n b : ℕ) (nb : n ≢ b) where
  pub Seg-insert :
      (a : ℕ) (ys zs : List ℕ)
      → n ≢ a
      → Fresh n (ys ++ zs)
      → Fresh a (ys ++ zs)
      → Fresh b (ys ++ zs)
      → Distinct (ys ++ zs)
      → Seg s a (ys ++ zs) b
      → Seg (list_add_between n (last a ys) (first zs b) s) a (ys ++ n ∷ zs) b
  unfolding list_add_between
  Seg-insert a [] [] na fn fa fb d g = (ground arith, ground arith, (ground arith, ground arith))
  Seg-insert a [] (z ∷ zs) na fn fa fb d g = (
    ground arith,
    ground arith,
    (
      ground arith,
      ground arith,
      Seg-frame s _ z b zs g.2 (ground arith) (list_add_between_same s n a z zs fn.1 fa.1 d.0)
          (ground arith),
    ),
  )
  Seg-insert a (y ∷ ys) zs na fn fa fb d g =
      let far : a ≢ last y ys = ne_last a y ys fa.0 (All-left (λ x. a ≢ x) ys zs fa.1) in
      let near : y ≢ first zs b =
        ne_first y b zs (All-right (λ x. y ≢ x) ys zs d.0) (λ e. fb.0 (sym e)) in
      let ny : n ≢ y = fn.0 in
      (ground arith, ground arith, Seg-insert y ys zs ny fn.1 d.0 fb.1 d.1 g.2)

  pub Seg-remove :
      (a : ℕ) (ys zs : List ℕ)
      → n ≢ a
      → Fresh n (ys ++ zs)
      → Fresh a (ys ++ zs)
      → Fresh b (ys ++ zs)
      → Distinct (ys ++ zs)
      → Seg s a (ys ++ n ∷ zs) b
      → Seg (init_list_head n (list_del_between (last a ys) (first zs b) s)) a (ys ++ zs) b
  unfolding list_del_between
  Seg-remove a [] [] na fn fa fb d g = (ground arith, ground arith)
  Seg-remove a [] (z ∷ zs) na fn fa fb d g = (
    ground arith,
    ground arith,
    Seg-frame s _ z b zs g.2.2 (ground arith) (list_del_between_same s n a z zs fn.1 fa.1 d.0)
        (ground arith),
  )
  Seg-remove a (y ∷ ys) zs na fn fa fb d g =
      let far : a ≢ last y ys = ne_last a y ys fa.0 (All-left (λ x. a ≢ x) ys zs fa.1) in
      let near : y ≢ first zs b =
        ne_first y b zs (All-right (λ x. y ≢ x) ys zs d.0) (λ e. fb.0 (sym e)) in
      let ny : n ≢ y = fn.0 in
      (ground arith, ground arith, Seg-remove y ys zs ny fn.1 d.0 fb.1 d.1 g.2)

module _ (s : Links) (n p f k : ℕ) (xs : List ℕ) where
  -- A list that has none of the three addresses keeps its chain under an insertion.
  pub Seg-elsewhere_insert :
      k ≢ n
      → k ≢ p
      → k ≢ f
      → Fresh n xs
      → Fresh p xs
      → Fresh f xs
      → Seg s k xs k
      → Seg (list_add_between n p f s) k xs k
  unfolding list_add_between
  Seg-elsewhere_insert kn kp kf fn fp ff g =
      Seg-frame s _ k k xs g (ground arith) (list_add_between_same s n p f xs fn fp ff)
        (ground arith)

  -- And under a removal.
  pub Seg-elsewhere_remove :
      k ≢ n
      → k ≢ p
      → k ≢ f
      → Fresh n xs
      → Fresh p xs
      → Fresh f xs
      → Seg s k xs k
      → Seg (init_list_head n (list_del_between p f s)) k xs k
  unfolding list_del_between
  Seg-elsewhere_remove kn kp kf fn fp ff g =
      Seg-frame s _ k k xs g (ground arith) (list_del_between_same s n p f xs fn fp ff)
        (ground arith)

  -- And when one address alone is linked to itself.
  pub Seg-elsewhere_init : k ≢ n → Fresh n xs → Seg s k xs k → Seg (init_list_head n s) k xs k
  Seg-elsewhere_init kn fn g =
      Seg-frame s _ k k xs g (ground arith) (init_same xs fn) (ground arith)
    where
      init_same :
          (ys : List ℕ)
          → Fresh n ys
          → All
              (λ x.
                ((init_list_head n s).next x ≡ s.next x) × ((init_list_head n s).prev x ≡ s.prev x))
              ys
      init_same = elim [
        | [] ↦ λ _. tt
        | y ∷ (ys → ih) ↦ λ h. ((ground (arith, h.0), ground (arith, h.0)), ih h.1)
      ]
