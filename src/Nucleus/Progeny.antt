-- ===== src/Nucleus/Progeny.antt =====
-- The progeny of a process, and what the kernel loses when processes end.
use progetto_so.Base.{
  ℕ, ◌≡◌, ◌≢◌, ◌⊎◌, inl, inr, refl, sym, ap, subst, ◌∙◌, some, none, Fresh, In, In-Fresh, not-In,
}
use progetto_so.Memory.{Store}
use progetto_so.Asl.Inv.{some-ne-none}
use progetto_so.Kernel.{Kernel}
use progetto_so.Nucleus.{IsKernel}

-- The process itself, its children, their children and so on, by the parents that they name.
pub data Descends (s : Store) (p : ℕ) : ℕ → Type 0 where
  self : Descends s p p
  child : (c q : ℕ) → (s.pcb c).p_parent ≡ some q → Descends s p q → Descends s p c

-- What descends from a child of `p` descends from `p`.
pub Descends-child :
    (s : Store) (p c x : ℕ) → (s.pcb c).p_parent ≡ some p → Descends s c x → Descends s p x
Descends-child s p c _ e self = child c p e self
Descends-child s p c _ e (child d q h g) = child d q h (Descends-child s p c q e g)

-- Who descends from `p` is `p` or descends from one of its children.
pub Descends-cases :
    (s : Store) (p x : ℕ)
    → Descends s p x
    → (x ≡ p) ⊎ ((c : ℕ) × ((s.pcb c).p_parent ≡ some p) × Descends s c x)
Descends-cases s p _ self = inl refl
Descends-cases s p _ (child d q h g) = elim (Descends-cases s p q g) [
  | inl e ↦ inr (d, h ∙ ap some e, Descends.self)
  | inr (c, up, g') ↦ inr (c, up, Descends.child d q h g')
]

-- If each parent in `t` is the one in `s`, descendants in `t` are descendants in `s`.
pub Descends-same :
    (s t : Store) (p x : ℕ)
    → ((c q : ℕ) → (t.pcb c).p_parent ≡ some q → (s.pcb c).p_parent ≡ some q)
    → Descends t p x
    → Descends s p x
Descends-same s t p _ f self = self
Descends-same s t p _ f (child d q h g) = child d q (f d q h) (Descends-same s t p q f g)

-- From `k` to `j` only descendants of `p` are freed, and who is not free keeps the parent, and the
-- processor if it has it.
pub record Cull (k j : Kernel) (n : IsKernel k) (m : IsKernel j) (p : ℕ) : Type 0 where
  pub freed : (x : ℕ) → In x m.view.free → In x n.view.free ⊎ Descends k.store p x
  pub still_free : (x : ℕ) → In x n.view.free → In x m.view.free
  pub parents : (x : ℕ) → Fresh x m.view.free → (j.store.pcb x).p_parent ≡ (k.store.pcb x).p_parent
  pub runs : (x : ℕ) → k.current_process ≡ some x → Fresh x m.view.free → j.current_process ≡ some x

pub Cull-refl : (k : Kernel) (n : IsKernel k) (p : ℕ) → Cull k k n n p
Cull-refl k n p = record {
  freed = λ x m. inl m;
  still_free = λ x m. m;
  parents = λ x f. refl;
  runs = λ x e f. e;
}

pub Cull-trans :
    (k j l : Kernel) (n : IsKernel k) (m : IsKernel j) (o : IsKernel l) (p : ℕ)
    → Cull k j n m p
    → Cull j l m o p
    → Cull k l n o p
Cull-trans k j l n m o p f g = record {
  freed = λ x i. elim (g.freed x i) [
    | inl h ↦ f.freed x h
    | inr d ↦ inr (
        Descends-same k.store j.store p x
          (λ c q e. sym (f.parents c (m.store.family.alive c q e).2) ∙ e) d)
  ];
  still_free = λ x i. g.still_free x (f.still_free x i);
  parents = λ x fresh. g.parents x fresh ∙ f.parents x (before x fresh);
  runs = λ x e fresh. g.runs x (f.runs x e (before x fresh)) fresh;
}
  where
    before : (x : ℕ) → Fresh x o.view.free → Fresh x m.view.free
    before x fresh = elim (In-Fresh x m.view.free) [
      | inl i ↦ absurd (not-In x o.view.free fresh (g.still_free x i))
      | inr h ↦ h
    ]

-- The child `c` of `p` is cut off, and then it ends with its progeny.
pub Cull-child :
    (k k₁ j : Kernel) (n : IsKernel k) (n₁ : IsKernel k₁) (m : IsKernel j) (p c : ℕ)
    → n₁.view.free ≡ n.view.free
    → (k.store.pcb c).p_parent ≡ some p
    → (k₁.store.pcb c).p_parent ≡ none
    → ((x : ℕ) → x ≢ c → (k₁.store.pcb x).p_parent ≡ (k.store.pcb x).p_parent)
    → k₁.current_process ≡ k.current_process
    → Cull k₁ j n₁ m c
    → In c m.view.free
    → Cull k j n m p
Cull-child k k₁ j n n₁ m p c same e cut others cur f dead = record {
  runs = λ x h fresh. f.runs x (cur ∙ h) fresh;
  freed = λ x i. elim (f.freed x i) [
    | inl h ↦ inl (subst (In x) same h)
    | inr d ↦ inr (Descends-child k.store p c x e (Descends-same k.store k₁.store c x uncut d))
  ];
  still_free = λ x i. f.still_free x (subst (In x) (sym same) i);
  parents = λ x fresh.
      f.parents x fresh
      ∙ others x (λ d. not-In x m.view.free fresh (subst (λ y. In y m.view.free) (sym d) dead));
}
  where
    uncut : (x q : ℕ) → (k₁.store.pcb x).p_parent ≡ some q → (k.store.pcb x).p_parent ≡ some q
    uncut x q h =
        sym (others x (λ d. some-ne-none (sym h ∙ (ap (λ y. (k₁.store.pcb y).p_parent) d ∙ cut))))
        ∙ h

-- All the progeny of a process that is freed is freed.
pub Descends-freed :
    (k j : Kernel) (n : IsKernel k) (m : IsKernel j) (p x : ℕ)
    → Cull k j n m p
    → In p m.view.free
    → Descends k.store p x
    → In x m.view.free
Descends-freed k j n m p _ f dead self = dead
Descends-freed k j n m p _ f dead (child c q e d) = elim (In-Fresh c m.view.free) [
  | inl i ↦ i
  | inr fresh ↦ absurd (
      not-In q m.view.free (m.store.family.alive c q (f.parents c fresh ∙ e)).3
        (Descends-freed k j n m p q f dead d))
]
