-- ===== src/Base/Lists.antt =====
-- Lists measured by native numbers, and the predicates on lists that the proofs use.
use Prim.Native.Nat.{ℕ, suc, ◌+◌}
use mathlib.Core.Path.{◌≡◌}
use mathlib.Core.Logic.{◌≢◌}
use mathlib.Core.List.{List, [], ◌∷◌, ◌++◌}
use native.Mathlib.Omega.{arith}

module _ {ℓ} {A : Type ℓ} where
  abbrev pub length : List A → ℕ
  length [] = 0
  length (x ∷ xs) = suc (length xs)

  pub length-append : (xs ys : List A) → length (xs ++ ys) ≡ length xs + length ys
  length-append [] ys = omega arith
  length-append (x ∷ xs) ys = omega (arith, length-append xs ys)

  -- The last entry of `a ∷ xs`.
  abbrev pub last : A → List A → A
  last a [] = a
  last a (x ∷ xs) = last x xs

  -- The first entry of `xs ++ b ∷ []`.
  abbrev pub first : List A → A → A
  first [] b = b
  first (x ∷ xs) b = x

-- Every entry satisfies `P`.
abbrev pub All {ℓ κ} : {A : Type ℓ} → (A → Type κ) → List A → Type κ
All P [] = Unit
All P (x ∷ xs) = P x × All P xs

module _ {ℓ κ} {A : Type ℓ} (P : A → Type κ) where
  pub All-append : (xs ys : List A) → All P xs → All P ys → All P (xs ++ ys)
  All-append [] ys hx hy = hy
  All-append (x ∷ xs) ys hx hy = (hx.0, All-append xs ys hx.1 hy)

  pub All-left : (xs ys : List A) → All P (xs ++ ys) → All P xs
  All-left [] ys h = tt
  All-left (x ∷ xs) ys h = (h.0, All-left xs ys h.1)

  pub All-right : (xs ys : List A) → All P (xs ++ ys) → All P ys
  All-right [] ys h = h
  All-right (x ∷ xs) ys h = All-right xs ys h.1

pub All-map {ℓ κ μ} :
    {A : Type ℓ} {P : A → Type κ} {Q : A → Type μ} (xs : List A)
    → ((x : A) → P x → Q x)
    → All P xs
    → All Q xs
All-map [] f h = tt
All-map (x ∷ xs) f h = (f x h.0, All-map xs f h.1)

-- `a` does not stand in the list.
abbrev pub Fresh : ℕ → List ℕ → Type 0
Fresh a = All (λ x. a ≢ x)

-- No entry stands twice in the list.
abbrev pub Distinct : List ℕ → Type 0
Distinct [] = Unit
Distinct (x ∷ xs) = Fresh x xs × Distinct xs

pub Distinct-insert :
    (n : ℕ) (ys zs : List ℕ) → Distinct (ys ++ zs) → Fresh n (ys ++ zs) → Distinct (ys ++ n ∷ zs)
Distinct-insert n [] zs d f = (f, d)
Distinct-insert n (y ∷ ys) zs d f = (
  All-append (λ x. y ≢ x) ys (n ∷ zs) (All-left (λ x. y ≢ x) ys zs d.0)
      ((let h : n ≢ y = f.0 in omega arith), All-right (λ x. y ≢ x) ys zs d.0),
  Distinct-insert n ys zs d.1 f.1,
)

pub Distinct-remove : (n : ℕ) (ys zs : List ℕ) → Distinct (ys ++ n ∷ zs) → Distinct (ys ++ zs)
Distinct-remove n [] zs d = d.1
Distinct-remove n (y ∷ ys) zs d = (
  All-append (λ x. y ≢ x) ys zs (All-left (λ x. y ≢ x) ys (n ∷ zs) d.0)
      (All-right (λ x. y ≢ x) ys (n ∷ zs) d.0).1,
  Distinct-remove n ys zs d.1,
)

pub Distinct-mid : (n : ℕ) (ys zs : List ℕ) → Distinct (ys ++ n ∷ zs) → Fresh n (ys ++ zs)
Distinct-mid n [] zs d = d.0
Distinct-mid n (y ∷ ys) zs d = (
  (let h : y ≢ n = (All-right (λ x. y ≢ x) ys (n ∷ zs) d.0).0 in omega arith),
  Distinct-mid n ys zs d.1,
)

module _ (a b : ℕ) where
  -- An entry off the list and off its end is not the first one.
  pub ne_first : (zs : List ℕ) → Fresh a zs → a ≢ b → a ≢ first zs b
  ne_first [] f h = h
  ne_first (z ∷ zs) f h = f.0

pub ne_last : (a x : ℕ) (xs : List ℕ) → a ≢ x → Fresh a xs → a ≢ last x xs
ne_last a x [] h f = h
ne_last a x (y ∷ ys) h f = ne_last a y ys f.0 f.1
