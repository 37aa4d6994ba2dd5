-- ===== src/Nucleus/Target.antt =====
-- How `TerminateProcess` of phase2/syscalls.c finds the process with an id: up to the root of the
-- tree and down from it.
use mathlib.Core.List.{append_assoc, map-append}
use progetto_so.Base.{
  ℕ, zero, suc, ◌+◌, ◌<◌, ◌≡◌, ◌≢◌, refl, sym, ap, subst, ◌∙◌, inl, inr, Bool-cases, Option-cases,
  Option, none, some, List, [], ◌∷◌, ◌++◌, map, arith, first, All, All-map, Fresh, Distinct,
  Distinct-length, In, In-right, length, ==_refl, ==_ne, ◌==◌, ◌>>=◌,
}
use progetto_so.ListX.Operations.{next-first, next-mid}
use progetto_so.ListX.Rings.{Rings}
use progetto_so.Memory.{maxproc, Store, p_child, p_sib, container_of}
use progetto_so.Syscalls.Processes.{find_in_children, find_from, find_pcb_by_pid, root_from}
use progetto_so.Nucleus.{View, IsStore}
use progetto_so.Nucleus.Progeny.{Descends, Descends-child, Descends-cases}
use progetto_so.Nucleus.Children.{child_parent, children_few, Fresh-below, Fresh-above}

-- A process, which is a PCB of the table that is not free.
abbrev pub IsProcess : List ℕ → ℕ → Type 0
IsProcess free p = (p < maxproc) × Fresh p free

-- A search below `root` that returns: with a process of the tree that has the id, or without one if
-- no process of the tree has it.
abbrev pub Found : Store → List ℕ → ℕ → ℕ → Option (Option ℕ) → Type 0
Found s free target root none = ⊥
Found s free target root (some none) = (x : ℕ) → Descends s root x → (s.pcb x).p_pid ≢ target
Found s free target root (some (some p)) =
    IsProcess free p × ((s.pcb p).p_pid ≡ target) × Descends s root p

-- The same of the trees of the children `cs` of `root`.
abbrev FoundBelow : Store → List ℕ → ℕ → ℕ → List ℕ → Option (Option ℕ) → Type 0
FoundBelow s free target root cs none = ⊥
FoundBelow s free target root cs (some none) =
    (c x : ℕ) → In c cs → Descends s c x → (s.pcb x).p_pid ≢ target
FoundBelow s free target root cs (some (some p)) =
    IsProcess free p × ((s.pcb p).p_pid ≡ target) × Descends s root p

-- The root of the tree of `p`.
abbrev pub IsRoot : Store → ℕ → ℕ → Type 0
IsRoot s p q = ((s.pcb q).p_parent ≡ none) × Descends s q p

module _ {s : Store} {r : Rings} {v : View} {hs : List ℕ} (i : IsStore s r v hs) where
  -- The loop upwards: it has met the processes `down` before.
  root_from-IsProcess :
      (levels p : ℕ) (down : List ℕ)
      → levels + length down ≡ maxproc + 1
      → Distinct down
      → All (λ a. a < maxproc) down
      → All (λ a. v.rank p < v.rank a) down
      → IsProcess v.free p
      → (q : ℕ) × (root_from levels p s ≡ some q) × IsProcess v.free q × IsRoot s p q
  unfolding root_from
  root_from-IsProcess zero p down total d smalls highs live =
      absurd (let few = Distinct-length maxproc down d smalls in omega arith)
  root_from-IsProcess (suc levels) p down total d smalls highs live =
      elim (Option-cases (s.pcb p).p_parent) [
        | inl e ↦ rw (e, root_from) (p, refl, live, (e, Descends.self))
        | inr (q, e) ↦
            (let (_, q_small, _, q_alive) = i.family.alive p q e in
              let older = i.family.ranked p q e in
              let (t, run, lives, (top, below)) =
                root_from-IsProcess levels q (p ∷ down) (omega arith)
                  (Fresh-above v.rank p down highs, d) (live.0, smalls)
                  (older, All-map down (λ a lt. omega arith) highs) (q_small, q_alive) in
              rw (e, root_from) (t, run, lives, (top, Descends.child p q e below)))
      ]

  module _ (target : ℕ) where
    -- The loop over the children of a process.
    find_in_children-Found :
        (root : ℕ) (find : ℕ → Store → Option (Option ℕ)) (rounds : ℕ) (ys zs : List ℕ)
        → IsProcess v.free root
        → ((c : ℕ) → In c (v.children root) → Found s v.free target c (find c s))
        → v.children root ≡ ys ++ zs
        → length zs < rounds
        → FoundBelow s v.free target root zs
            (find_in_children find rounds root (first (map p_sib zs) (p_child root)) s)
    unfolding find_in_children
    find_in_children-Found root find zero ys zs live finds e lt = absurd (omega arith)
    find_in_children-Found root find (suc rounds) ys [] live finds e lt =
        rw (==_refl (p_child root)) (λ c x m. elim m [ ])
    find_in_children-Found root find (suc rounds) ys (c ∷ cs) live finds e lt =
        let at_c : container_of (p_sib c) 2 ≡ c = omega arith in
        let h = i.family.heads root live.0 live.1 in
        let step : s.links.next (p_sib c) ≡ first (map p_sib cs) (p_child root) =
          next-mid s.links r i.asl.linked (p_child root) h (p_sib c) (map p_sib ys) (map p_sib cs) (
            i.family.lists root live.0 live.1
            ∙ (ap (map p_sib) e ∙ map-append p_sib ys (c ∷ cs))) in
        let rest =
          find_in_children-Found root find rounds (ys ++ c ∷ []) cs live finds
            (e ∙ sym (append_assoc ys (c ∷ []) cs)) (omega arith) in
        rw (==_ne (p_sib c) (p_child root) (omega arith), at_c)
          (choose
            (child_parent i root live.0 live.1 c
              (subst (In c) (sym e) (In-right c ys (c ∷ cs) (inl refl))))
            (find_in_children find rounds root (s.links.next (p_sib c)) s) (find c s)
            (finds c (subst (In c) (sym e) (In-right c ys (c ∷ cs) (inl refl))))
            (subst (λ a. FoundBelow s v.free target root cs (find_in_children find rounds root a s))
              (sym step) rest))
      where
        choose :
            (s.pcb c).p_parent ≡ some root
            → (x o : Option (Option ℕ)) → Found s v.free target c o
            → FoundBelow s v.free target root cs x
            → FoundBelow s v.free target root
                (c ∷ cs)
                (o >>= λ found. elim found [ none ↦ x | some p ↦ some (some p) ])
        choose up x none f g = elim f [ ]
        choose up none (some none) f g = elim g [ ]
        choose up (some none) (some none) f g =
            λ d y m. elim m [ inl h ↦ λ t. f y (subst (λ z. Descends s z y) h t) | inr h ↦ g d y h ]
        choose up (some (some p)) (some none) f g = g
        choose up x (some (some p)) f g = (f.0, f.1, Descends-child s root c p up f.2)

    -- The process itself and the trees of its children.
    whole :
        (p : ℕ)
        → IsProcess v.free p
        → (s.pcb p).p_pid ≢ target
        → (o : Option (Option ℕ)) → FoundBelow s v.free target p (v.children p) o
        → Found s v.free target p o
    whole p live ne none f = f
    whole p live ne (some (some q)) f = f
    whole p live ne (some none) f = λ x d. elim (Descends-cases s p x d) [
      | inl e ↦ λ h. ne (ap (λ y. (s.pcb y).p_pid) (sym e) ∙ h)
      | inr (c, up, g) ↦ f c x (i.family.registered c p up) g
    ]

    -- The search downwards, below the processes `up`.
    find_from-Found :
        (levels p : ℕ) (up : List ℕ)
        → levels + length up ≡ maxproc + 1
        → Distinct up
        → All (λ a. a < maxproc) up
        → All (λ a. v.rank a < v.rank p) up
        → IsProcess v.free p
        → Found s v.free target p (find_from target levels p s)
    unfolding find_from
    find_from-Found zero p up total d smalls lows live =
        absurd (let few = Distinct-length maxproc up d smalls in omega arith)
    find_from-Found (suc levels) p up total d smalls lows live =
        elim (Bool-cases ((s.pcb p).p_pid == target)) [
          | inl yes_it ↦ rw yes_it (live, ground arith, Descends.self)
          | inr no_it ↦
              rw
                (
                  no_it,
                  next-first s.links r i.asl.linked (p_child p) (i.family.heads p live.0 live.1),
                  i.family.lists p live.0 live.1,
                )
                (whole p live (ground arith)
                  (find_in_children (find_from target levels) (maxproc + 1) p
                    (first (map p_sib (v.children p)) (p_child p)) s)
                  (find_in_children-Found p (find_from target levels) (maxproc + 1) []
                    (v.children p) live
                    (λ c m.
                      let is_child = child_parent i p live.0 live.1 c m in
                      let (c_small, _, c_alive, _) = i.family.alive c p is_child in
                      let older = i.family.ranked c p is_child in
                      find_from-Found levels c (p ∷ up) (omega arith)
                        (Fresh-below v.rank p up lows, d) (live.0, smalls)
                        (older, All-map up (λ a lt. omega arith) lows) (c_small, c_alive))
                    refl (let few = children_few i p live.0 live.1 in omega arith)))
        ]

  -- In a store under the invariant of the whole kernel, for a PCB `p` of the table that is not free,
  -- the climb from `p` and `findPcbByPid` from where it ends return, within `MAXPROC + 1` levels and
  -- rounds. The climb ends at the process `q` without a parent that `p` descends from. The search
  -- finds a descendant of `q` that has the id and is a PCB of the table that is not free, or nothing
  -- if no descendant of `q` has the id.
  pub target-Found :
      (p target : ℕ)
      → IsProcess v.free p
      → (q : ℕ) × (root_from (maxproc + 1) p s ≡ some q)
        × IsRoot s p q
        × Found s v.free target q (find_pcb_by_pid q target s)
  unfolding find_pcb_by_pid
  target-Found p target live =
      let (q, run, root, top) =
        root_from-IsProcess (maxproc + 1) p [] (omega arith) tt tt tt live in
      (q, run, top, find_from-Found target (maxproc + 1) q [] (omega arith) tt tt tt root)
