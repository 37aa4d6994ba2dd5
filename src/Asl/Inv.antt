-- ===== src/Asl/Inv.antt =====
-- What holds of the active semaphore list of phase1/asl.c between two calls.
use progetto_so.Base.{
  ℕ, ◌+◌, ◌≤◌, ◌<◌, ◌≡◌, refl, sym, ap, ◌∙◌, ◌≢◌, Option, none, some, List, [], ◌∷◌, map, arith,
  All, length, ◌==◌, Bool-cases, inl, inr, subst, if◌then◌else◌,
}
use progetto_so.ListX.Rings.{Rings, Linked, head, in_ring}
use progetto_so.Memory.{maxproc, Store, p_list, s_procq, s_link, semd_free_h, semd_h}

-- The keys grow along the list.
abbrev pub IsAsc : (ℕ → ℕ) → List ℕ → Type 0
IsAsc key [] = Unit
IsAsc key (x ∷ xs) = All (λ y. key x < key y) xs × IsAsc key xs

-- The descriptor `j` holds the queue `ps` of processes that name its key.
pub record IsQueue (s : Store) (r : Rings) (j : ℕ) (ps : List ℕ) : Type 0 where
  pub at_head : r.role (s_procq j) ≡ head
  pub entries : r.list (s_procq j) ≡ map p_list ps
  pub named : All (λ p. (s.pcb p).p_sem_add ≡ s.s_key j) ps
  pub small : length ps ≤ maxproc

-- `js` are the descriptors in use, by growing key, each with its queue, and `fs` the free ones.
pub record IsCore (s : Store) (r : Rings) (js fs : List ℕ) (queue : ℕ → List ℕ) : Type 0 where
  pub linked : Linked s.links r
  pub active_head : r.role semd_h ≡ head
  pub free_head : r.role semd_free_h ≡ head
  pub active : r.list semd_h ≡ map s_link js
  pub free : r.list semd_free_h ≡ map s_link fs
  pub sorted : IsAsc s.s_key js
  pub bounded : length js + length fs ≤ maxproc
  pub queues : All (λ j. IsQueue s r j (queue j)) js
  pub sentinels : (j k : ℕ) → r.role (s_procq j) ≢ in_ring k

-- And no descriptor in use has an empty queue.
pub record IsAsl (s : Store) (r : Rings) (js fs : List ℕ) (queue : ℕ → List ℕ) : Type 0 where
  pub core : IsCore s r js fs queue
  pub open core use *
  pub busy : All (λ j. queue j ≢ []) js

-- The descriptor with the key.
unfoldable pub find_key : (ℕ → ℕ) → ℕ → List ℕ → Option ℕ
find_key key k [] = none
find_key key k (j ∷ js) = if key j == k then some j else find_key key k js

abbrev pub queue_at : (ℕ → List ℕ) → Option ℕ → List ℕ
queue_at queue none = []
queue_at queue (some j) = queue j

-- The processes that wait at a semaphore, first come first: what the list stands for.
abbrev pub waiting : Store → List ℕ → (ℕ → List ℕ) → ℕ → List ℕ
waiting s js queue k = queue_at queue (find_key s.s_key k js)

pub some_inj : {a b : ℕ} → some a ≡ some b → a ≡ b
some_inj e = cc

pub some-ne-none : {a : ℕ} → some a ≢ none
some-ne-none e = cc

module _ (key : ℕ → ℕ) (k : ℕ) where
  pub find_key-above : (js : List ℕ) → All (λ y. k < key y) js → find_key key k js ≡ none
  unfolding find_key
  find_key-above [] h = refl
  find_key-above (j ∷ js) h = ground (arith, find_key-above js h.1)

  -- What is found has the key, and whatever all descriptors have.
  pub find_key-some {κ} :
      (P : ℕ → Type κ) (js : List ℕ) (j : ℕ)
      → find_key key k js ≡ some j
      → All P js
      → (key j ≡ k) × P j
  unfolding find_key
  find_key-some P [] j e h = cc
  find_key-some P (i ∷ js) j e h = elim (Bool-cases (key i == k)) [
    | inl yes_i ↦
        let same : i ≡ j = some_inj (rw yes_i at e) in
        ((let q : key i ≡ k = ground arith in ap key (sym same) ∙ q), subst P same h.0)
    | inr no_i ↦ find_key-some P js j (rw no_i at e) h.1
  ]

  -- What is not found is no key of the list.
  pub find_key-none : (js : List ℕ) → find_key key k js ≡ none → All (λ j. key j ≢ k) js
  unfolding find_key
  find_key-none [] e = tt
  find_key-none (i ∷ js) e = elim (Bool-cases (key i == k)) [
    | inl yes_i ↦ let q : some i ≡ none = rw yes_i at e in absurd (some-ne-none q)
    | inr no_i ↦ (ground arith, find_key-none js (rw no_i at e))
  ]
