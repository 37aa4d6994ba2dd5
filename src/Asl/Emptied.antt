-- ===== src/Asl/Emptied.antt =====
-- The queues at the descriptors of phase1/asl.c after a process has left one.
use progetto_so.Base.{
  ℕ, ◌<◌, ◌≡◌, refl, sym, ap, ◌∙◌, ◌≢◌, inl, inr, Option, none, some, List, [], ◌∷◌, ◌++◌, arith,
  All, All-map, All-right, Fresh, ◌==◌, ==_refl, ==_ne, eq_cases, if◌then◌else◌, write, write_self,
  write_ne,
}
use progetto_so.Asl.Inv.{IsAsc, find_key, find_key-some, queue_at}
use progetto_so.Asl.Waiting.{All-trivial}

-- A descriptor stands once in the list.
pub Fresh-IsAsc :
    (key : ℕ → ℕ) (j : ℕ) (xs ys : List ℕ) → IsAsc key (xs ++ j ∷ ys) → Fresh j (xs ++ ys)
Fresh-IsAsc key j [] ys d =
    All-map ys (λ y h e. let q : key j ≡ key y = ap key e in omega arith) d.0
Fresh-IsAsc key j (x ∷ xs) ys d = (
  (λ e.
      let lt : key x < key j = (All-right (λ y. key x < key y) xs (j ∷ ys) d.0).0 in
      let q : key j ≡ key x = ap key e in omega arith),
  Fresh-IsAsc key j xs ys d.1,
)

-- The queues after that of the descriptor `j` has become `rest`.
module _ (key : ℕ → ℕ) (js : List ℕ) (queue : ℕ → List ℕ) (j k : ℕ) (rest : List ℕ)
    (e : find_key key k js ≡ some j) (ej : key j ≡ k) where
  other_queue :
      (i : ℕ)
      → i ≢ k
      → queue_at (write queue j rest) (find_key key i js) ≡ queue_at queue (find_key key i js)
  other_queue i ne = at (find_key key i js) refl
    where
      at :
          (o : Option ℕ)
          → find_key key i js ≡ o
          → queue_at (write queue j rest) o ≡ queue_at queue o
      at none f = refl
      at (some h) f = write_ne queue j rest h (λ x.
          ne
            (sym (find_key-some key i (λ _. Unit {0}) js h f (All-trivial js)).0 ∙ (ap key x ∙ ej)))

  pub left_waits :
      (i : ℕ)
      → queue_at (write queue j rest) (find_key key i js)
        ≡ (if i == k then rest else queue_at queue (find_key key i js))
  left_waits i = elim (eq_cases i k) [
    | inl q ↦ rw (q, ==_refl k, e) (write_self queue j rest)
    | inr ne ↦ rw (==_ne i k ne) (other_queue i ne)
  ]

  pub gone_waits :
      rest ≡ []
      → (js' : List ℕ)
      → ((i : ℕ) → find_key key i js' ≡ (if i == key j then none else find_key key i js))
      → (i : ℕ)
      → queue_at (write queue j rest) (find_key key i js')
        ≡ (if i == k then rest else queue_at queue (find_key key i js))
  gone_waits none_left js' search i = elim (eq_cases i k) [
    | inl q ↦
        let gone : find_key key i js' ≡ none = search i ∙ rw (q, ej, ==_refl k) in
        rw (gone, q, ==_refl k) (sym none_left)
    | inr ne ↦
        let same : find_key key i js' ≡ find_key key i js = search i ∙ rw (ej, ==_ne i k ne) in
        rw (same, ==_ne i k ne) (other_queue i ne)
  ]

pub Fresh-busy :
    (queue : ℕ → List ℕ) (j : ℕ) (rest : List ℕ) (is : List ℕ)
    → Fresh j is
    → All (λ i. queue i ≢ []) is
    → All (λ i. write queue j rest i ≢ []) is
Fresh-busy queue j rest [] f h = tt
Fresh-busy queue j rest (i ∷ is) f h = (
  (λ z. h.0 (sym (write_ne queue j rest i (λ x. f.0 (sym x))) ∙ z)),
  Fresh-busy queue j rest is f.1 h.1,
)

pub kept_busy :
    (queue : ℕ → List ℕ) (j : ℕ) (rest : List ℕ)
    → rest ≢ []
    → (is : List ℕ) → All (λ i. queue i ≢ []) is
    → All (λ i. write queue j rest i ≢ []) is
kept_busy queue j rest ne is = All-map is λ i h. elim (eq_cases i j) [
  | inl e ↦ λ z. ne (sym (ap (write queue j rest) e ∙ write_self queue j rest) ∙ z)
  | inr n ↦ λ z. h (sym (write_ne queue j rest i n) ∙ z)
]
