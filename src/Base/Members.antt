-- ===== src/Base/Members.antt =====
-- Membership in lists of numbers, and how many distinct small numbers there are.
use Prim.Native.Nat.{ℕ, zero, suc, ◌≤◌, ◌<◌}
use mathlib.Core.Path.{◌≡◌, refl, sym, ap, subst}
use mathlib.Core.Logic.{◌⊎◌, inl, inr}
use mathlib.Core.List.{List, [], ◌∷◌, ◌++◌, map}
use native.Mathlib.Omega.{arith}
use progetto_so.Base.Tests.{eq_cases}
use progetto_so.Base.Lists.{
  length, length-append, All, All-append, All-left, All-right, Fresh, Distinct, Distinct-remove,
  Distinct-mid,
}

-- `a` stands in the list.
abbrev pub In : ℕ → List ℕ → Type 0
In a [] = ⊥
In a (x ∷ xs) = (a ≡ x) ⊎ In a xs

pub In-Fresh : (a : ℕ) (xs : List ℕ) → In a xs ⊎ Fresh a xs
In-Fresh a [] = inr tt
In-Fresh a (x ∷ xs) = elim (eq_cases a x) [
  | inl e ↦ inl (inl e)
  | inr ne ↦ elim (In-Fresh a xs) [ inl m ↦ inl (inr m) | inr f ↦ inr (ne, f) ]
]

pub not-In : (a : ℕ) (xs : List ℕ) → Fresh a xs → ¬ (In a xs)
not-In a [] f m = elim m [ ]
not-In a (x ∷ xs) f (inl e) = f.0 e
not-In a (x ∷ xs) f (inr m) = not-In a xs f.1 m

pub All-In {κ} : (P : ℕ → Type κ) (a : ℕ) (xs : List ℕ) → All P xs → In a xs → P a
All-In P a [] h m = elim m [ ]
All-In P a (x ∷ xs) h (inl e) = subst P (sym e) h.0
All-In P a (x ∷ xs) h (inr m) = All-In P a xs h.1 m

pub In-left : (a : ℕ) (xs ys : List ℕ) → In a xs → In a (xs ++ ys)
In-left a [] ys m = elim m [ ]
In-left a (x ∷ xs) ys (inl e) = inl e
In-left a (x ∷ xs) ys (inr m) = inr (In-left a xs ys m)

pub In-right : (a : ℕ) (xs ys : List ℕ) → In a ys → In a (xs ++ ys)
In-right a [] ys m = m
In-right a (x ∷ xs) ys m = inr (In-right a xs ys m)

pub In-append : (a : ℕ) (xs ys : List ℕ) → In a (xs ++ ys) → In a xs ⊎ In a ys
In-append a [] ys m = inr m
In-append a (x ∷ xs) ys (inl e) = inl (inl e)
In-append a (x ∷ xs) ys (inr m) = elim (In-append a xs ys m) [ inl l ↦ inl (inr l) | inr r ↦ inr r ]

-- What stands in a list stands in it with one more entry.
pub In-insert : (a b : ℕ) (xs ys : List ℕ) → In a (xs ++ ys) → In a (xs ++ b ∷ ys)
In-insert a b xs ys m = elim (In-append a xs ys m) [
  | inl l ↦ In-left a xs (b ∷ ys) l
  | inr r ↦ In-right a xs (b ∷ ys) (inr r)
]

-- What stands in a list is the entry taken out, or still stands there.
pub In-remove : (a b : ℕ) (xs ys : List ℕ) → In a (xs ++ b ∷ ys) → (a ≡ b) ⊎ In a (xs ++ ys)
In-remove a b xs ys m = elim (In-append a xs (b ∷ ys) m) [
  | inl l ↦ inr (In-left a xs ys l)
  | inr (inl e) ↦ inl e
  | inr (inr r) ↦ inr (In-right a xs ys r)
]

-- The first place of an entry.
pub In-split :
    (a : ℕ) (xs : List ℕ)
    → In a xs
    → (us : List ℕ) × (ws : List ℕ) × (xs ≡ us ++ a ∷ ws) × Fresh a us
In-split a [] m = elim m [ ]
In-split a (x ∷ xs) m = elim (eq_cases a x) [
  | inl e ↦ ([], xs, ap (λ y. y ∷ xs) (sym e), tt)
  | inr ne ↦
      let (us, ws, e, f) = In-split a xs (elim m [ inl e ↦ absurd (ne e) | inr r ↦ r ]) in
      (x ∷ us, ws, ap (λ ys. x ∷ ys) e, (ne, f))
]

-- Without an entry that is `n`, entries up to `n` are below it.
below-Fresh : (n : ℕ) (xs : List ℕ) → Fresh n xs → All (λ x. x < suc n) xs → All (λ x. x < n) xs
below-Fresh n [] f h = tt
below-Fresh n (x ∷ xs) f h =
    ((let ne = f.0 in let lt = h.0 in omega arith), below-Fresh n xs f.1 h.1)

-- There are at most `n` distinct numbers below `n`.
pub Distinct-length : (n : ℕ) (xs : List ℕ) → Distinct xs → All (λ x. x < n) xs → length xs ≤ n
Distinct-length zero [] d h = omega arith
Distinct-length zero (x ∷ xs) d h = absurd (let lt = h.0 in omega arith)
Distinct-length (suc n) xs d h = elim (In-Fresh n xs) [
  | inl m ↦
      let (us, ws, e, f) = In-split n xs m in
      let d' : Distinct (us ++ n ∷ ws) = subst Distinct e d in
      let h' : All (λ x. x < suc n) (us ++ n ∷ ws) = subst (All (λ x. x < suc n)) e h in
      let small = below-Fresh n (us ++ ws) (Distinct-mid n us ws d') (
        All-append (λ x. x < suc n) us ws (All-left (λ x. x < suc n) us (n ∷ ws) h')
          (All-right (λ x. x < suc n) us (n ∷ ws) h').1) in
      let rest = Distinct-length n (us ++ ws) (Distinct-remove n us ws d') small in
      omega (arith, ap (length {A = ℕ}) e, length-append us (n ∷ ws), length-append us ws)
  | inr f ↦ let rest = Distinct-length n xs d (below-Fresh n xs f h) in omega arith
]

-- And less than `n` of them if one of those is left out.
pub Distinct-length_lt :
    (n a : ℕ) (xs : List ℕ) → Distinct xs → All (λ x. x < n) xs → a < n → Fresh a xs → length xs < n
Distinct-length_lt n a xs d h lt f =
    let le = Distinct-length n (a ∷ xs) (f, d) (lt, h) in omega arith

pub Distinct-map : (f : ℕ → ℕ) (xs : List ℕ) → Distinct (map f xs) → Distinct xs
Distinct-map f [] d = tt
Distinct-map f (x ∷ xs) d = (fresh xs d.0, Distinct-map f xs d.1)
  where
    fresh : (ys : List ℕ) → Fresh (f x) (map f ys) → Fresh x ys
    fresh = elim [ [] ↦ λ _. tt | y ∷ (ys → ih) ↦ λ h. ((λ e. h.0 (ap f e)), ih h.1) ]

-- What holds of each entry holds of all.
pub All-of {κ} : (P : ℕ → Type κ) (xs : List ℕ) → ((x : ℕ) → In x xs → P x) → All P xs
All-of P [] f = tt
All-of P (x ∷ xs) f = (f x (inl refl), All-of P xs (λ y m. f y (inr m)))
