-- ===== src/Nucleus/Birth.antt =====
-- `CreateProcess` of phase2/syscalls.c and the invariant of the whole kernel.
use progetto_so.Base.{
  ◌%◌, ◌^◌, ℕ, ◌+◌, ◌≡◌, ◌≢◌, refl, ap, subst, ◌∙◌, Option, none, some, List, [], ◌∷◌, arith, All,
  All-of, length, write,
}
use progetto_so.ListX.Rings.{Rings, loose, in_ring}
use progetto_so.Memory.{maxproc, Pcb, Store, p_child, p_sib}
use progetto_so.Pcb.{alloc_pcb, reset_pcb}
use progetto_so.Pcb.Tree.{sibling_role}
use progetto_so.Pcb.Alloc.{Allocated, alloc_pcb-Allocated}
use progetto_so.Kernel.{incr}
use progetto_so.Nucleus.{View, IsStore}
use progetto_so.Nucleus.Family.{free_orphan, born-IsStore}

-- A new process with the rank `n` in hand, which has no parent; `ps` are still free.
pub record Born (s : Store) (v : View) (hs : List ℕ) (count n p : ℕ) (ps : List ℕ) (t : Store)
    : Type 0 where
  pub rings : Rings
  pub store :
      IsStore t rings
        (record v { free = ps; children = write v.children p []; rank = write v.rank p n })
        (p ∷ hs)
  pub counted : incr count + length ps ≡ maxproc
  pub fresh : t.pcb p ≡ reset_pcb s.next_pid
  pub others : (q : ℕ) → q ≢ p → t.pcb q ≡ s.pcb q
  pub numbered : t.next_pid ≡ (s.next_pid + 1) % 2 ^ 32

-- The outcome of `allocPcb`, by the PCBs that are free before it.
abbrev pub Births : Store → View → List ℕ → ℕ → ℕ → List ℕ → Option ℕ × Store → Type 0
Births s v hs count n [] o = o ≡ (none, s)
Births s v hs count n (p ∷ ps) o = (t : Store) × (o ≡ (some p, t)) × Born s v hs count n p ps t

-- Each free PCB has link fields for the tree that are in no list.
pub free_apart :
    {s : Store} {r : Rings} {v : View} {hs : List ℕ}
    → IsStore s r v hs
    → All (λ p. ((k : ℕ) → r.role (p_child p) ≢ in_ring k) × (r.role (p_sib p) ≡ loose)) v.free
free_apart {s} {r} {v} i =
    All-of (λ p. ((k : ℕ) → r.role (p_child p) ≢ in_ring k) × (r.role (p_sib p) ≡ loose)) v.free
      (λ p m.
        ((λ k. i.family.apart p k), i.family.tree p ∙ ap sibling_role (free_orphan i.family p m)))

pub alloc_pcb-Births :
    (s : Store) (r : Rings) (v : View) (hs : List ℕ) (count n : ℕ)
    → IsStore s r v hs
    → count + length v.free ≡ maxproc
    → Births s v hs count n v.free (alloc_pcb s)
alloc_pcb-Births s r v hs count n i c = at v.free refl (
    alloc_pcb-Allocated s r v.free i.asl.linked i.queues.free_head i.queues.free_entries
      (free_apart i))
  where
    at :
        (ps : List ℕ)
        → v.free ≡ ps
        → Allocated s r ps (alloc_pcb s)
        → Births s v hs count n ps (alloc_pcb s)
    at [] e w = w
    at (p ∷ ps) e (t, run, l, fresh, others, keys, numbered) =
        let j : IsStore s r (record v { free = p ∷ ps }) hs =
          subst (λ xs. IsStore s r (record v { free = xs }) hs) e i in
        (
          t,
          run,
          record {
            rings = _;
            store = born-IsStore t v hs p n ps j (ap (λ (x : Pcb). x.p_parent) fresh) others l keys;
            counted = (let long = subst (λ xs. count + length xs ≡ maxproc) e c in omega arith);
            fresh = fresh;
            others = others;
            numbered = numbered;
          },
        )
