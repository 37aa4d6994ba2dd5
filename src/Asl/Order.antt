-- ===== src/Asl/Order.antt =====
-- The place of a new key in a sorted list of descriptors of phase1/asl.c, and the search after it.
use progetto_so.Base.{
  ℕ, ◌<◌, ◌≡◌, refl, ◌≢◌, inl, inr, some, List, [], ◌∷◌, ◌++◌, arith, All, All-map, All-left,
  All-right, Fresh, ltb, ◌==◌, Bool-cases, if◌then◌else◌, write,
}
use progetto_so.Asl.Inv.{IsAsc, find_key}

module _ (key : ℕ → ℕ) (k : ℕ) where
  -- The descriptors up to the first one with a larger key, and the others.
  unfoldable pub below : List ℕ → List ℕ
  below [] = []
  below (y ∷ ys) = if ltb k (key y) then [] else y ∷ below ys

  unfoldable pub above : List ℕ → List ℕ
  above [] = []
  above (y ∷ ys) = if ltb k (key y) then y ∷ ys else above ys

  pub below-above : (js : List ℕ) → below js ++ above js ≡ js
  unfolding below above
  below-above [] = refl
  below-above (y ∷ ys) = ground (arith, below-above ys)

  pub All-below : (js : List ℕ) → All (λ y. key y ≢ k) js → All (λ y. key y < k) (below js)
  unfolding below
  All-below [] h = tt
  All-below (y ∷ ys) h = elim (Bool-cases (ltb k (key y))) [
    | inl over ↦ rw over tt
    | inr under ↦ rw under (let ne = h.0 in (ground arith, All-below ys h.1))
  ]

  pub All-above : (js : List ℕ) → IsAsc key js → All (λ y. k < key y) (above js)
  unfolding above
  All-above [] d = tt
  All-above (y ∷ ys) d = elim (Bool-cases (ltb k (key y))) [
    | inl over ↦
        rw over (let lt : k < key y = ground arith in (lt, All-map ys (λ z h. omega arith) d.0))
    | inr under ↦ rw under (All-above ys d.1)
  ]

-- A new descriptor in its place keeps the keys growing.
pub IsAsc-insert :
    (key : ℕ → ℕ) (k j : ℕ) (xs ys : List ℕ)
    → Fresh j (xs ++ ys)
    → All (λ x. key x < k) xs
    → All (λ y. k < key y) ys
    → IsAsc key (xs ++ ys)
    → IsAsc (write key j k) (xs ++ j ∷ ys)
IsAsc-insert key k j [] ys f hx hy d = (later ys f hy, same ys f d)
  where
    later :
        (zs : List ℕ)
        → Fresh j zs
        → All (λ y. k < key y) zs
        → All (λ y. write key j k j < write key j k y) zs
    later = elim [
      | [] ↦ λ _ _. tt
      | z ∷ (zs → ih) ↦ λ g h. (let a = g.0 in let b = h.0 in ground arith, ih g.1 h.1)
    ]

    each :
        (x : ℕ)
        → j ≢ x
        → (zs : List ℕ) → Fresh j zs
        → All (λ y. key x < key y) zs
        → All (λ y. write key j k x < write key j k y) zs
    each x ne = elim [
      | [] ↦ λ _ _. tt
      | z ∷ (zs → ih) ↦ λ g h. (let a = g.0 in let b = h.0 in ground arith, ih g.1 h.1)
    ]

    same : (zs : List ℕ) → Fresh j zs → IsAsc key zs → IsAsc (write key j k) zs
    same = elim [ [] ↦ λ _ _. tt | z ∷ (zs → ih) ↦ λ g h. (each z g.0 zs g.1 h.0, ih g.1 h.1) ]
IsAsc-insert key k j (x ∷ xs) ys f hx hy d = (
  over xs f.1 (All-left (λ y. key x < key y) xs ys d.0),
  IsAsc-insert key k j xs ys f.1 hx.1 hy d.1,
)
  where
    ends :
        (zs : List ℕ)
        → Fresh j zs
        → All (λ y. key x < key y) zs
        → All (λ y. write key j k x < write key j k y) zs
    ends = elim [
      | [] ↦ λ _ _. tt
      | z ∷ (zs → ih) ↦
          λ g h. (let n = f.0 in let a = g.0 in let b = h.0 in ground arith, ih g.1 h.1)
    ]

    over :
        (zs : List ℕ)
        → Fresh j (zs ++ ys)
        → All (λ y. key x < key y) zs
        → All (λ y. write key j k x < write key j k y) (zs ++ j ∷ ys)
    over = elim [
      | [] ↦ λ g h. (
        let n = f.0 in let l = hx.0 in ground arith,
        ends ys g (All-right (λ y. key x < key y) xs ys d.0),
      )
      | z ∷ (zs → ih) ↦
          λ g h. (let n = f.0 in let a = g.0 in let b = h.0 in ground arith, ih g.1 h.1)
    ]

-- The search in the longer list.
pub find_key-insert :
    (key : ℕ → ℕ) (k j : ℕ) (xs ys : List ℕ)
    → Fresh j (xs ++ ys)
    → All (λ x. key x ≢ k) (xs ++ ys)
    → (i : ℕ)
    → find_key (write key j k) i (xs ++ j ∷ ys)
      ≡ (if i == k then some j else find_key key i (xs ++ ys))
unfolding find_key
find_key-insert key k j [] ys f h i = ground (arith, same ys f)
  where
    same : (zs : List ℕ) → Fresh j zs → find_key (write key j k) i zs ≡ find_key key i zs
    same = elim [
      | [] ↦ λ _. refl
      | z ∷ (zs → ih) ↦ λ g. (let a = g.0 in let b = ih g.1 in ground arith)
    ]
find_key-insert key k j (x ∷ xs) ys f h i =
    let a = f.0 in let b = h.0 in ground (arith, find_key-insert key k j xs ys f.1 h.1 i)
