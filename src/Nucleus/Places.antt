-- ===== src/Nucleus/Places.antt =====
-- Where a PCB is after it has moved from one list to another.
use progetto_so.Base.{
  ℕ, ◌<◌, ◌≡◌, ◌≢◌, ◌⊎◌, inl, inr, sym, ap, subst, ◌∙◌, List, [], ◌∷◌, ◌++◌, All, All-append,
  All-left, All-right, In, In-insert, In-remove, In-left, In-right, ◌==◌, ==_refl, ==_ne, eq_cases,
  if◌then◌else◌,
}
use progetto_so.Memory.{maxproc}
use progetto_so.Nucleus.{IsPlaced}

module _ {free held : List ℕ} {waits : ℕ → List ℕ} (p : ℕ) (us ws : List ℕ) where
  -- From the ready queue into the hand, and back.
  pub IsPlaced-unready :
      IsPlaced free (us ++ p ∷ ws) held waits → IsPlaced free (us ++ ws) (p ∷ held) waits
  IsPlaced-unready i = record {
    somewhere = λ q lt. elim (i.somewhere q lt) [
      | inl f ↦ inl f
      | inr (inl m) ↦ elim (In-remove q p us ws m) [
        | inl e ↦ inr (inr (inl (inl e)))
        | inr r ↦ inr (inl r)
      ]
      | inr (inr (inl h)) ↦ inr (inr (inl (inr h)))
      | inr (inr (inr w)) ↦ inr (inr (inr w))
    ];
    small_free = i.small_free;
    small_ready =
        All-append (λ q. q < maxproc) us ws (All-left (λ q. q < maxproc) us (p ∷ ws) i.small_ready)
          (All-right (λ q. q < maxproc) us (p ∷ ws) i.small_ready).1;
    small_held = ((All-right (λ q. q < maxproc) us (p ∷ ws) i.small_ready).0, i.small_held);
    small_waits = i.small_waits;
    not_null = i.not_null;
  }

  pub IsPlaced-ready :
      IsPlaced free (us ++ ws) (p ∷ held) waits → IsPlaced free (us ++ p ∷ ws) held waits
  IsPlaced-ready i = record {
    somewhere = λ q lt. elim (i.somewhere q lt) [
      | inl f ↦ inl f
      | inr (inl m) ↦ inr (inl (In-insert q p us ws m))
      | inr (inr (inl (inl e))) ↦ inr (inl (In-right q us (p ∷ ws) (inl e)))
      | inr (inr (inl (inr h))) ↦ inr (inr (inl h))
      | inr (inr (inr w)) ↦ inr (inr (inr w))
    ];
    small_free = i.small_free;
    small_ready =
        All-append (λ q. q < maxproc) us (p ∷ ws) (All-left (λ q. q < maxproc) us ws i.small_ready)
          (i.small_held.0, All-right (λ q. q < maxproc) us ws i.small_ready);
    small_held = i.small_held.1;
    small_waits = i.small_waits;
    not_null = i.not_null;
  }

module _ {free ready held : List ℕ} {waits : ℕ → List ℕ} (p : ℕ) where
  -- From the free list into the hand, and back.
  pub IsPlaced-born : IsPlaced (p ∷ free) ready held waits → IsPlaced free ready (p ∷ held) waits
  IsPlaced-born i = record {
    somewhere = λ q lt. elim (i.somewhere q lt) [
      | inl (inl e) ↦ inr (inr (inl (inl e)))
      | inl (inr f) ↦ inl f
      | inr (inl m) ↦ inr (inl m)
      | inr (inr (inl h)) ↦ inr (inr (inl (inr h)))
      | inr (inr (inr w)) ↦ inr (inr (inr w))
    ];
    small_free = i.small_free.1;
    small_ready = i.small_ready;
    small_held = (i.small_free.0, i.small_held);
    small_waits = i.small_waits;
    not_null = i.not_null;
  }

  pub IsPlaced-dead : IsPlaced free ready (p ∷ held) waits → IsPlaced (p ∷ free) ready held waits
  IsPlaced-dead i = record {
    somewhere = λ q lt. elim (i.somewhere q lt) [
      | inl f ↦ inl (inr f)
      | inr (inl m) ↦ inr (inl m)
      | inr (inr (inl (inl e))) ↦ inl (inl e)
      | inr (inr (inl (inr h))) ↦ inr (inr (inl h))
      | inr (inr (inr w)) ↦ inr (inr (inr w))
    ];
    small_free = (i.small_held.0, i.small_free);
    small_ready = i.small_ready;
    small_held = i.small_held.1;
    small_waits = i.small_waits;
    not_null = i.not_null;
  }

module _ {free ready held : List ℕ} {waits waits' : ℕ → List ℕ} (k p : ℕ) where
  -- From the hand to the end of the queue at a semaphore.
  pub IsPlaced-asleep :
      k ≢ 0
      → ((i : ℕ) → waits' i ≡ (if i == k then waits k ++ p ∷ [] else waits i))
      → IsPlaced free ready (p ∷ held) waits
      → IsPlaced free ready held waits'
  IsPlaced-asleep ne w i = record {
    somewhere = λ q lt. elim (i.somewhere q lt) [
      | inl f ↦ inl f
      | inr (inl m) ↦ inr (inl m)
      | inr (inr (inl (inl e))) ↦
          inr (inr (inr (k, subst (In q) (sym at_k) (In-right q (waits k) (p ∷ []) (inl e)))))
      | inr (inr (inl (inr h))) ↦ inr (inr (inl h))
      | inr (inr (inr (j, m))) ↦ inr (inr (inr (j, still q j m)))
    ];
    small_free = i.small_free;
    small_ready = i.small_ready;
    small_held = i.small_held.1;
    small_waits = λ j. elim (eq_cases j k) [
      | inl e ↦
          subst (All (λ q. q < maxproc)) (sym (ap waits' e ∙ at_k)) (
            All-append (λ q. q < maxproc) (waits k) (p ∷ []) (i.small_waits k) (i.small_held.0, tt))
      | inr ne ↦ subst (All (λ q. q < maxproc)) (sym (elsewhere j ne)) (i.small_waits j)
    ];
    not_null = elsewhere 0 (λ e. ne (sym e)) ∙ i.not_null;
  }
    where
      at_k : waits' k ≡ waits k ++ p ∷ []
      at_k = w k ∙ ap (λ b. if b then waits k ++ p ∷ [] else waits k) (==_refl k)

      elsewhere : (j : ℕ) → j ≢ k → waits' j ≡ waits j
      elsewhere j n = w j ∙ ap (λ b. if b then waits k ++ p ∷ [] else waits j) (==_ne j k n)

      still : (q j : ℕ) → In q (waits j) → In q (waits' j)
      still q j m = elim (eq_cases j k) [
        | inl e ↦
            subst (In q) (sym (ap waits' e ∙ at_k))
              (In-left q (waits k) (p ∷ []) (subst (λ x. In q (waits x)) e m))
        | inr n ↦ subst (In q) (sym (elsewhere j n)) m
      ]

  -- From the queue at a semaphore into the hand.
  pub IsPlaced-awake :
      (us ws : List ℕ)
      → waits k ≡ us ++ p ∷ ws
      → ((i : ℕ) → waits' i ≡ (if i == k then us ++ ws else waits i))
      → IsPlaced free ready held waits
      → IsPlaced free ready (p ∷ held) waits'
  IsPlaced-awake us ws was w i = record {
    somewhere = λ q lt. elim (i.somewhere q lt) [
      | inl f ↦ inl f
      | inr (inl m) ↦ inr (inl m)
      | inr (inr (inl h)) ↦ inr (inr (inl (inr h)))
      | inr (inr (inr (j, m))) ↦ inr (inr (still q j m))
    ];
    small_free = i.small_free;
    small_ready = i.small_ready;
    small_held = ((All-right (λ q. q < maxproc) us (p ∷ ws) small_k).0, i.small_held);
    small_waits = λ j. elim (eq_cases j k) [
      | inl e ↦ subst (All (λ q. q < maxproc)) (sym (ap waits' e ∙ at_k)) (
          All-append (λ q. q < maxproc) us ws (All-left (λ q. q < maxproc) us (p ∷ ws) small_k)
            (All-right (λ q. q < maxproc) us (p ∷ ws) small_k).1)
      | inr n ↦ subst (All (λ q. q < maxproc)) (sym (elsewhere j n)) (i.small_waits j)
    ];
    not_null = elsewhere 0 (λ e. some_null e) ∙ i.not_null;
  }
    where
      at_k : waits' k ≡ us ++ ws
      at_k = w k ∙ ap (λ b. if b then us ++ ws else waits k) (==_refl k)

      elsewhere : (j : ℕ) → j ≢ k → waits' j ≡ waits j
      elsewhere j n = w j ∙ ap (λ b. if b then us ++ ws else waits j) (==_ne j k n)

      small_k : All (λ q. q < maxproc) (us ++ p ∷ ws)
      small_k = subst (All (λ q. q < maxproc)) was (i.small_waits k)

      nil_ne : (xs : List ℕ) → [] ≢ xs ++ p ∷ ws
      nil_ne = elim [ [] ↦ λ z. cc | x ∷ xs ↦ λ z. cc ]

      some_null : 0 ≢ k
      some_null e = nil_ne us (sym i.not_null ∙ (ap waits e ∙ was))

      still : (q j : ℕ) → In q (waits j) → In q (p ∷ held) ⊎ ((x : ℕ) × In q (waits' x))
      still q j m = elim (eq_cases j k) [
        | inl e ↦ elim (In-remove q p us ws (subst (In q) (ap waits e ∙ was) m)) [
          | inl here ↦ inl (inl here)
          | inr r ↦ inr (k, subst (In q) (sym at_k) r)
        ]
        | inr n ↦ inr (j, subst (In q) (sym (elsewhere j n)) m)
      ]
