-- ===== src/Nucleus/Frames.antt =====
-- What the end of processes in phase2/syscalls.c leaves alone.
use progetto_so.Base.{◌≤◌, ℕ, ◌<◌, ◌≡◌, ◌⊎◌, refl, ap, ◌∙◌, inl, inr, none, arith, Fresh}
use progetto_so.Kernel.{Kernel}
use progetto_so.Nucleus.{IsKernel}

-- What the end of processes leaves alone: those of a smaller rank than `b`.
pub record Frame (k j : Kernel) (n : IsKernel k) (m : IsKernel j) (b : ℕ) : Type 0 where
  pub ranks : m.view.rank ≡ n.view.rank
  pub kids : (x : ℕ) → n.view.rank x < b → m.view.children x ≡ n.view.children x
  pub survives : (x : ℕ) → n.view.rank x < b → Fresh x n.view.free → Fresh x m.view.free
  pub parents : (x : ℕ) → n.view.rank x < b → (j.store.pcb x).p_parent ≡ (k.store.pcb x).p_parent
  pub stays : (j.current_process ≡ none) ⊎ (j.current_process ≡ k.current_process)

pub Frame-refl : (k : Kernel) (n : IsKernel k) (b : ℕ) → Frame k k n n b
Frame-refl k n b = record {
  ranks = refl;
  kids = λ x _. refl;
  survives = λ x _ f. f;
  parents = λ x _. refl;
  stays = inr refl;
}

pub Frame-trans :
    (k j l : Kernel) (n : IsKernel k) (m : IsKernel j) (o : IsKernel l) (b c : ℕ)
    → b ≤ c
    → Frame k j n m b
    → Frame j l m o c
    → Frame k l n o b
Frame-trans k j l n m o b c le f g =
    let up : (x : ℕ) → n.view.rank x < b → m.view.rank x < c =
      λ x lt. (let e = ap (λ h. h x) f.ranks in omega arith) in
    record {
      ranks = g.ranks ∙ f.ranks;
      kids = λ x lt. g.kids x (up x lt) ∙ f.kids x lt;
      survives = λ x lt fresh. g.survives x (up x lt) (f.survives x lt fresh);
      parents = λ x lt. g.parents x (up x lt) ∙ f.parents x lt;
      stays = elim g.stays [
        | inl e ↦ inl e
        | inr e ↦ elim f.stays [ inl d ↦ inl (e ∙ d) | inr d ↦ inr (e ∙ d) ]
      ];
    }
