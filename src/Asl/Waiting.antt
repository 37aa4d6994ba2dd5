-- ===== src/Asl/Waiting.antt =====
-- The queues at the descriptors of phase1/asl.c after a process has joined one.
use progetto_so.Base.{
  ℕ, ◌≡◌, refl, sym, ap, ◌∙◌, ◌≢◌, inl, inr, Option, none, some, List, [], ◌∷◌, ◌++◌, All, All-map,
  Fresh, ◌==◌, ==_refl, ==_ne, eq_cases, if◌then◌else◌, write, write_self, write_ne,
}
use progetto_so.Asl.Inv.{find_key, find_key-some, queue_at}

pub snoc_ne : (p : ℕ) (xs : List ℕ) → xs ++ p ∷ [] ≢ []
snoc_ne p [] e = cc
snoc_ne p (x ∷ xs) e = cc

-- Joining keeps every queue of descriptors in use from being empty.
pub joined_busy :
    (queue : ℕ → List ℕ) (j p : ℕ) (is : List ℕ)
    → All (λ i. queue i ≢ []) is
    → All (λ i. write queue j (queue j ++ p ∷ []) i ≢ []) is
joined_busy queue j p is = All-map is λ i h. elim (eq_cases i j) [
  | inl e ↦ λ z.
      snoc_ne p (queue j) (
        sym (ap (write queue j (queue j ++ p ∷ [])) e ∙ write_self queue j (queue j ++ p ∷ [])) ∙ z)
  | inr ne ↦ λ z. h (sym (write_ne queue j (queue j ++ p ∷ []) i ne) ∙ z)
]

pub All-trivial : (xs : List ℕ) → All (λ _. Unit {0}) xs
All-trivial [] = tt
All-trivial (x ∷ xs) = (tt, All-trivial xs)

-- The queues after `p` has joined that of the descriptor `j`.
pub joined_waits :
    (key : ℕ → ℕ) (js : List ℕ) (queue : ℕ → List ℕ) (j k p : ℕ)
    → find_key key k js ≡ some j
    → key j ≡ k
    → (i : ℕ)
    → queue_at (write queue j (queue j ++ p ∷ [])) (find_key key i js) ≡ (
        if i == k
        then queue_at queue (find_key key k js) ++ p ∷ []
        else queue_at queue (find_key key i js))
joined_waits key js queue j k p e ej i = elim (eq_cases i k) [
  | inl q ↦ rw (q, ==_refl k, e) (write_self queue j (queue j ++ p ∷ []))
  | inr ne ↦ rw (==_ne i k ne) (at ne (find_key key i js) refl)
]
  where
    at :
        i ≢ k
        → (o : Option ℕ) → find_key key i js ≡ o
        → queue_at (write queue j (queue j ++ p ∷ [])) o ≡ queue_at queue o
    at ne none f = refl
    at ne (some h) f =
        let key_h = (find_key-some key i (λ _. Unit {0}) js h f (All-trivial js)).0 in
        write_ne queue j (queue j ++ p ∷ []) h (λ x. ne (sym key_h ∙ (ap key x ∙ ej)))

-- `p` alone waits at the new descriptor `j`.
abbrev pub opened : (ℕ → List ℕ) → ℕ → ℕ → ℕ → List ℕ
opened queue j p = write (write queue j []) j (write queue j [] j ++ p ∷ [])

pub opened_self : (queue : ℕ → List ℕ) (j p : ℕ) → opened queue j p j ≡ p ∷ []
opened_self queue j p =
    write_self (write queue j []) j (write queue j [] j ++ p ∷ [])
    ∙ ap (λ xs. xs ++ p ∷ []) (write_self queue j [])

pub opened_ne : (queue : ℕ → List ℕ) (j p i : ℕ) → i ≢ j → opened queue j p i ≡ queue i
opened_ne queue j p i ne =
    write_ne (write queue j []) j (write queue j [] j ++ p ∷ []) i ne ∙ write_ne queue j [] i ne

pub opened_busy :
    (queue : ℕ → List ℕ) (j p : ℕ) (xs ys : List ℕ)
    → Fresh j (xs ++ ys)
    → All (λ i. queue i ≢ []) (xs ++ ys)
    → All (λ i. opened queue j p i ≢ []) (xs ++ j ∷ ys)
opened_busy queue j p [] ys f h =
    ((λ z. snoc_ne p [] (sym (opened_self queue j p) ∙ z)), rest ys f h)
  where
    rest :
        (zs : List ℕ)
        → Fresh j zs
        → All (λ i. queue i ≢ []) zs
        → All (λ i. opened queue j p i ≢ []) zs
    rest = elim [
      | [] ↦ λ _ _. tt
      | z ∷ (zs → ih) ↦
          λ g h. ((λ e. h.0 (sym (opened_ne queue j p z (λ x. g.0 (sym x))) ∙ e)), ih g.1 h.1)
    ]
opened_busy queue j p (x ∷ xs) ys f h = (
  (λ e. h.0 (sym (opened_ne queue j p x (λ z. f.0 (sym z))) ∙ e)),
  opened_busy queue j p xs ys f.1 h.1,
)

pub opened_waits :
    (key key' : ℕ → ℕ) (js js' : List ℕ) (queue : ℕ → List ℕ) (j k p : ℕ)
    → Fresh j js
    → find_key key k js ≡ none
    → ((i : ℕ) → find_key key' i js' ≡ (if i == k then some j else find_key key i js))
    → (i : ℕ)
    → queue_at (opened queue j p) (find_key key' i js') ≡ (
        if i == k
        then queue_at queue (find_key key k js) ++ p ∷ []
        else queue_at queue (find_key key i js))
opened_waits key key' js js' queue j k p f missing search i = elim (eq_cases i k) [
  | inl q ↦
      let found : find_key key' i js' ≡ some j = search i ∙ rw (q, ==_refl k) in
      rw (found, q, ==_refl k, missing) (opened_self queue j p)
  | inr ne ↦
      let same : find_key key' i js' ≡ find_key key i js = search i ∙ rw (==_ne i k ne) in
      rw (same, ==_ne i k ne) (at (find_key key i js) refl)
]
  where
    at : (o : Option ℕ) → find_key key i js ≡ o → queue_at (opened queue j p) o ≡ queue_at queue o
    at none e = refl
    at (some h) e =
        opened_ne queue j p h (λ x. (find_key-some key i (λ z. j ≢ z) js h e f).1 (sym x))
