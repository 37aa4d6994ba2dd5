-- ===== src/Nucleus/Exact.antt =====
-- Which processes `terminateProcessTree` of phase2/syscalls.c terminates.
use progetto_so.Base.{ℕ, ◌<◌, ◌≡◌, ◌↔◌, ◌⊎◌, inl, inr, ◌∙◌, Option, none, some, Fresh, In}
use progetto_so.Memory.{maxproc}
use progetto_so.Kernel.{Platform, Kernel}
use progetto_so.Terminate.{terminate_process_tree}
use progetto_so.Nucleus.{IsKernel}
use progetto_so.Nucleus.Progeny.{Descends, Descends-freed}
use progetto_so.Nucleus.Trees.{terminate_process_tree-Ended}
use progetto_so.Nucleus.Fates.{dead_idle}

-- A function returns; the free PCBs are those that were free and the progeny of `p`.
pub record Exactly (k : Kernel) (n : IsKernel k) (p : ℕ) (o : Option Kernel) : Type 0 where
  pub kernel : Kernel
  pub outcome : o ≡ some kernel
  pub keeps : IsKernel kernel
  pub gone : (x : ℕ) → In x keeps.view.free ↔ (In x n.view.free ⊎ Descends k.store p x)
  pub parents :
      (x : ℕ) → Fresh x keeps.view.free → (kernel.store.pcb x).p_parent ≡ (k.store.pcb x).p_parent
  pub runs :
      (x : ℕ)
      → k.current_process ≡ some x
      → Fresh x keeps.view.free
      → kernel.current_process ≡ some x
  pub idle :
      (x : ℕ) → k.current_process ≡ some x → Descends k.store p x → kernel.current_process ≡ none

-- Let the invariant of the whole kernel hold and `p` be a PCB of the table that is not free and has
-- no parent. Then `terminateProcessTree` of `p` returns: it needs no more than `MAXPROC + 1` levels
-- of recursion and rounds of each loop. The invariant holds again; the PCBs that are free then are
-- those that were free before, and `p` and its descendants by the parents that they name, and no
-- others. All others keep their parents, and the running process goes on unless it is among the
-- descendants, and then none runs.
pub terminate_process_tree-Exactly :
    (m : Platform) (p : ℕ) (k : Kernel) (n : IsKernel k)
    → p < maxproc
    → Fresh p n.view.free
    → (k.store.pcb p).p_parent ≡ none
    → Exactly k n p (terminate_process_tree m p k)
terminate_process_tree-Exactly m p k n small alive root =
    let e = terminate_process_tree-Ended m p k n small alive root in
    record {
      kernel = e.kernel;
      outcome = e.outcome;
      keeps = e.keeps;
      gone = λ x. (
        e.cull.freed x,
        λ h. elim h [
          | inl i ↦ e.cull.still_free x i
          | inr d ↦ Descends-freed k e.kernel n e.keeps p x e.cull e.dead d
        ],
      );
      parents = e.cull.parents;
      runs = e.cull.runs;
      idle = λ x run d. elim e.frame.stays [
        | inl h ↦ h
        | inr h ↦ absurd (
            dead_idle e.kernel e.keeps x (Descends-freed k e.kernel n e.keeps p x e.cull e.dead d)
              (h ∙ run))
      ];
    }
