-- ===== src/Nucleus/Pcbs.antt =====
-- The fields of PCBs that phase2 writes, and the invariant of the whole kernel.
use progetto_so.Base.{ℕ, ◌≡◌, inl, inr, refl, ap, ◌∙◌, List, write, write_self, write_ne, eq_cases}
use progetto_so.ListX.Rings.{Rings}
use progetto_so.Memory.{Pcb, Store}
use progetto_so.Syscalls.Saved.{IsAsl-pcbs}
use progetto_so.Nucleus.{View, IsStore, IsNucleus}
use progetto_so.Nucleus.Moves.{IsFamily-same}

-- A field that a write to a PCB leaves is the same in all PCBs.
pub same_field :
    {A : Type 0} (pick : Pcb → A) (p : ℕ) (s : Store) (x : Pcb)
    → pick x ≡ pick (s.pcb p)
    → (y : ℕ) → pick (write s.pcb p x y) ≡ pick (s.pcb y)
same_field pick p s x h y = elim (eq_cases y p) [
  | inl d ↦ rw d (ap pick (write_self s.pcb p x) ∙ h)
  | inr d ↦ ap pick (write_ne s.pcb p x y d)
]

-- A change of PCBs that keeps parents and semaphores.
pub IsStore-pcbs :
    {s : Store} {r : Rings} {v : View} {hs : List ℕ}
    → IsStore s r v hs
    → (pcbs : ℕ → Pcb) → ((q : ℕ) → (pcbs q).p_sem_add ≡ (s.pcb q).p_sem_add)
    → ((q : ℕ) → (pcbs q).p_parent ≡ (s.pcb q).p_parent)
    → IsStore (record s { pcb = pcbs }) r v hs
IsStore-pcbs i pcbs sems parents = record {
  asl = IsAsl-pcbs i.asl pcbs sems;
  semds = i.semds;
  queues = i.queues;
  placed = i.placed;
  family =
      IsFamily-same
        (record {
          child_role = λ _. refl;
          child_list = λ _. refl;
          sib_role = λ _. refl;
          parents = parents;
        })
        i.family;
}

pub IsNucleus-pcbs :
    {s : Store} {count : ℕ} {hs : List ℕ}
    → IsNucleus s count hs
    → (pcbs : ℕ → Pcb) → ((q : ℕ) → (pcbs q).p_sem_add ≡ (s.pcb q).p_sem_add)
    → ((q : ℕ) → (pcbs q).p_parent ≡ (s.pcb q).p_parent)
    → IsNucleus (record s { pcb = pcbs }) count hs
IsNucleus-pcbs n pcbs sems parents = record {
  rings = n.rings;
  view = n.view;
  store = IsStore-pcbs n.store pcbs sems parents;
  counted = n.counted;
}

pub IsNucleus-set_pcb :
    {s : Store} {count : ℕ} {hs : List ℕ}
    → IsNucleus s count hs
    → (p : ℕ) (x : Pcb) → x.p_sem_add ≡ (s.pcb p).p_sem_add
    → x.p_parent ≡ (s.pcb p).p_parent
    → IsNucleus (record s { pcb = write s.pcb p x }) count hs
IsNucleus-set_pcb {s} n p x es ep =
    IsNucleus-pcbs n (write s.pcb p x) (same_field (λ y. y.p_sem_add) p s x es)
      (same_field (λ y. y.p_parent) p s x ep)
