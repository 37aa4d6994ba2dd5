-- ===== src/Nucleus/OnePlace.antt =====
-- Each PCB is at exactly one place: free, ready, waiting at one semaphore, or running.
use progetto_so.Base.{
  ℕ, ◌<◌, ◌≡◌, refl, sym, ap, subst, ◌∙◌, inl, inr, Option, none, some, arith, All, All-In, In,
}
use progetto_so.ListX.Rings.{Role, loose, in_ring, in_ring-injective, loose-ne-in_ring}
use progetto_so.Memory.{maxproc, p_list, s_procq, ready_queue, pcb_free_h}
use progetto_so.Asl.Inv.{IsQueue, waiting, find_key, find_key-some, queue_at}
use progetto_so.Kernel.{Platform, Kernel, Exit}
use progetto_so.Nucleus.{IsKernel, running}
use progetto_so.Nucleus.Moves.{member_role}
use progetto_so.Nucleus.Runs.{Reached, Reached-IsKernel}

pub data Place : Type 0 where
  free ready current : Place
  asleep : ℕ → Place

-- The PCB `p` is at the place; `asleep k` is the queue at the semaphore `k`.
abbrev pub At : (k : Kernel) → IsKernel k → ℕ → Place → Type 0
At k n p free = In p n.view.free
At k n p ready = In p n.view.ready
At k n p current = k.current_process ≡ some p
At k n p (asleep sem) = In p (waiting k.store n.view.js n.view.queue sem)

-- What the link of a PCB says of its place.
abbrev LinkedAt : (k : Kernel) → IsKernel k → Role → Place → Type 0
LinkedAt k n x free = x ≡ in_ring pcb_free_h
LinkedAt k n x ready = x ≡ in_ring ready_queue
LinkedAt k n x current = x ≡ loose
LinkedAt k n x (asleep sem) = (j : ℕ) × (x ≡ in_ring (s_procq j)) × (k.store.s_key j ≡ sem)

module _ (k : Kernel) (n : IsKernel k) (p : ℕ) where
  asleep-role :
      (sem : ℕ)
      → In p (waiting k.store n.view.js n.view.queue sem)
      → LinkedAt k n (n.rings.role (p_list p)) (asleep sem)
  asleep-role sem m = at (find_key k.store.s_key sem n.view.js) refl m
    where
      at :
          (o : Option ℕ)
          → find_key k.store.s_key sem n.view.js ≡ o
          → In p (queue_at n.view.queue o)
          → LinkedAt k n (n.rings.role (p_list p)) (asleep sem)
      at none e m = elim m [ ]
      at (some j) e m =
          let a = n.store.asl in
          let (key, q) =
            find_key-some k.store.s_key sem (λ x. IsQueue k.store n.rings x (n.view.queue x))
              n.view.js j e a.queues in
          (
            j,
            All-In (λ x. n.rings.role (p_list x) ≡ in_ring (s_procq j)) p (n.view.queue j)
                (member_role n.rings (s_procq j) (n.view.queue j) k.store.links a.linked q.at_head
                  q.entries)
                m,
            key,
          )

  At-role : (l : Place) → At k n p l → LinkedAt k n (n.rings.role (p_list p)) l
  At-role free m =
      let i = n.store in
      All-In (λ x. n.rings.role (p_list x) ≡ in_ring pcb_free_h) p n.view.free
        (member_role n.rings pcb_free_h n.view.free k.store.links i.asl.linked i.queues.free_head
          i.queues.free_entries)
        m
  At-role ready m =
      let i = n.store in
      All-In (λ x. n.rings.role (p_list x) ≡ in_ring ready_queue) p n.view.ready
        (member_role n.rings ready_queue n.view.ready k.store.links i.asl.linked i.queues.ready_head
          i.queues.ready_entries)
        m
  At-role current e =
      (subst (λ c. All (λ x. n.rings.role (p_list x) ≡ loose) (running c)) e
        n.store.queues.held_loose).0
  At-role (asleep sem) m = asleep-role sem m

  -- The link tells the places apart.
  LinkedAt-one : (x : Role) (a b : Place) → LinkedAt k n x a → LinkedAt k n x b → a ≡ b
  LinkedAt-one x free free u v = refl
  LinkedAt-one x ready ready u v = refl
  LinkedAt-one x current current u v = refl
  LinkedAt-one x free ready u v =
      absurd (let e = in_ring-injective pcb_free_h ready_queue (sym u ∙ v) in omega arith)
  LinkedAt-one x ready free u v =
      absurd (let e = in_ring-injective ready_queue pcb_free_h (sym u ∙ v) in omega arith)
  LinkedAt-one x free current u v = absurd (loose-ne-in_ring pcb_free_h (sym v ∙ u))
  LinkedAt-one x current free u v = absurd (loose-ne-in_ring pcb_free_h (sym u ∙ v))
  LinkedAt-one x ready current u v = absurd (loose-ne-in_ring ready_queue (sym v ∙ u))
  LinkedAt-one x current ready u v = absurd (loose-ne-in_ring ready_queue (sym u ∙ v))
  LinkedAt-one x (asleep i) free (j, u, _) v =
      absurd (let e = in_ring-injective (s_procq j) pcb_free_h (sym u ∙ v) in omega arith)
  LinkedAt-one x free (asleep i) v (j, u, _) =
      absurd (let e = in_ring-injective (s_procq j) pcb_free_h (sym u ∙ v) in omega arith)
  LinkedAt-one x (asleep i) ready (j, u, _) v =
      absurd (let e = in_ring-injective (s_procq j) ready_queue (sym u ∙ v) in omega arith)
  LinkedAt-one x ready (asleep i) v (j, u, _) =
      absurd (let e = in_ring-injective (s_procq j) ready_queue (sym u ∙ v) in omega arith)
  LinkedAt-one x (asleep i) current (j, u, _) v = absurd (loose-ne-in_ring (s_procq j) (sym v ∙ u))
  LinkedAt-one x current (asleep i) v (j, u, _) = absurd (loose-ne-in_ring (s_procq j) (sym v ∙ u))
  LinkedAt-one x (asleep i) (asleep i') (j, u, key) (j', u', key') =
      let same : j ≡ j' =
        (let e = in_ring-injective (s_procq j) (s_procq j') (sym u ∙ u') in omega arith) in
      ap asleep (sym key ∙ (ap k.store.s_key same ∙ key'))

  -- The place of the PCB, and that it has no other.
  pub one_place : p < maxproc → (l : Place) × At k n p l × ((l' : Place) → At k n p l' → l' ≡ l)
  one_place small = elim (n.store.placed.somewhere p small) [
    | inl m ↦ only free m
    | inr (inl m) ↦ only ready m
    | inr (inr (inl m)) ↦ only current (is_running k.current_process m)
    | inr (inr (inr (sem, m))) ↦ only (asleep sem) m
  ]
    where
      is_running : (o : Option ℕ) → In p (running o) → o ≡ some p
      is_running none m = elim m [ ]
      is_running (some q) (inl e) = ap some (sym e)
      is_running (some q) (inr m) = elim m [ ]

      only :
          (l : Place)
          → At k n p l
          → (l : Place) × At k n p l × ((l' : Place) → At k n p l' → l' ≡ l)
      only l m =
          (l, m, λ l' m'. LinkedAt-one (n.rings.role (p_list p)) l' l (At-role l' m') (At-role l m))

-- After the boot of a machine whose PCBs name no parent, and after any sequence of exceptions, the
-- invariant of the whole kernel holds, and each PCB of the table is at exactly one place: it is
-- free, ready, waiting at one semaphore, or the running process. Each exception comes when the
-- kernel has left the processor to a process, to a handler of the support level or idle, and finds
-- the kernel's own variables as it has left them; only an interrupt comes while no process runs, and
-- no service is asked for a NULL semaphore.
pub Reached-one_place :
    (m : Platform) (x : Exit) (k : Kernel)
    → Reached m x k
    → (p : ℕ) → p < maxproc
    → (n : IsKernel k) × ((l : Place) × At k n p l × ((l' : Place) → At k n p l' → l' ≡ l))
Reached-one_place m x k h p small = let n = Reached-IsKernel m x k h in (n, one_place k n p small)
