-- ===== src/Nucleus.antt =====
-- What holds of the data of the whole kernel between two calls: the lists of phase 1 and the process
-- tree, and where each PCB is. A process that the nucleus has in hand, the running one or one that
-- is on its way from one list to another, is held.
pub mod Places
pub mod Moves
pub mod Ready
pub mod Room
pub mod Pcbs
pub mod Sleep
pub mod Services
pub mod Timers
pub mod Devices
pub mod Family
pub mod Adopt
pub mod Birth
pub mod Created
pub mod Orphans
pub mod Deaths
pub mod Progeny
pub mod Frames
pub mod Ends
pub mod Children
pub mod Trees
pub mod Target
pub mod Fates
pub mod Exact
pub mod Calls
pub mod Start
pub mod Runs
pub mod OnePlace
pub mod Undo
pub mod Drained
pub mod Slices
pub mod Yields
use progetto_so.Base.{
  ℕ, ◌+◌, ◌≤◌, ◌<◌, ◌≡◌, ◌≢◌, ◌⊎◌, Option, none, some, List, [], ◌∷◌, map, All, Fresh, Distinct, In,
  length, true, false,
}
use progetto_so.ListX.Rings.{Rings, Linked, head, loose, in_ring}
use progetto_so.Memory.{
  maxproc, Pcb, Store, p_list, p_child, p_sib, ready_queue, pcb_free_h, signed_lt,
}
use progetto_so.Pcb.{empty_proc_q}
use progetto_so.Kernel.{Kernel, Exit, ldst, ldcxt, halt, panic, wait, spin, Outcome}
use progetto_so.Pcb.Tree.{IsTree}
use progetto_so.Asl.Inv.{IsAsl, waiting}

-- The two queues outside the semaphores, and the processes in hand, which are in no queue.
pub record IsQueues (r : Rings) (free ready held : List ℕ) : Type 0 where
  pub ready_head : r.role ready_queue ≡ head
  pub ready_entries : r.list ready_queue ≡ map p_list ready
  pub free_head : r.role pcb_free_h ≡ head
  pub free_entries : r.list pcb_free_h ≡ map p_list free
  pub held_loose : All (λ p. r.role (p_list p) ≡ loose) held
  pub held_distinct : Distinct held

-- Every PCB of the table is somewhere, nothing else is anywhere, and no semaphore is NULL.
pub record IsPlaced (free ready held : List ℕ) (waits : ℕ → List ℕ) : Type 0 where
  pub somewhere :
      (p : ℕ) → p < maxproc → In p free ⊎ (In p ready ⊎ (In p held ⊎ ((k : ℕ) × In p (waits k))))
  pub small_free : All (λ p. p < maxproc) free
  pub small_ready : All (λ p. p < maxproc) ready
  pub small_held : All (λ p. p < maxproc) held
  pub small_waits : (k : ℕ) → All (λ p. p < maxproc) (waits k)
  pub not_null : waits 0 ≡ []

-- The process tree: `children` are the children of each process, and `rank` grows from a process
-- to its children. Processes are the PCBs that are not free.
pub record IsFamily (s : Store) (r : Rings) (free : List ℕ) (children : ℕ → List ℕ) (rank : ℕ → ℕ)
    : Type 0 where
  pub tree : IsTree s r.role
  pub apart : (p k : ℕ) → r.role (p_child p) ≢ in_ring k
  pub heads : (p : ℕ) → p < maxproc → Fresh p free → r.role (p_child p) ≡ head
  pub lists : (p : ℕ) → p < maxproc → Fresh p free → r.list (p_child p) ≡ map p_sib (children p)
  pub registered : (c p : ℕ) → (s.pcb c).p_parent ≡ some p → In c (children p)
  pub alive :
      (c p : ℕ)
      → (s.pcb c).p_parent ≡ some p
      → (c < maxproc) × (p < maxproc) × Fresh c free × Fresh p free
  pub ranked : (c p : ℕ) → (s.pcb c).p_parent ≡ some p → rank p < rank c

-- What the lists in memory stand for.
pub record View : Type 0 where
  pub js : List ℕ
  pub fs : List ℕ
  pub queue : ℕ → List ℕ
  pub ready : List ℕ
  pub free : List ℕ
  pub children : ℕ → List ℕ
  pub rank : ℕ → ℕ

-- The whole, with the processes `hs` in hand.
pub record IsStore (s : Store) (r : Rings) (v : View) (hs : List ℕ) : Type 0 where
  pub asl : IsAsl s r v.js v.fs v.queue
  pub semds : length v.js + length v.fs ≡ maxproc
  pub queues : IsQueues r v.free v.ready hs
  pub placed : IsPlaced v.free v.ready hs (waiting s v.js v.queue)
  pub family : IsFamily s r v.free v.children v.rank

abbrev pub running : Option ℕ → List ℕ
running none = []
running (some p) = p ∷ []

-- There is such a view of the data, with the processes `hs` in hand, and `count` is the number of
-- PCBs that are not free.
pub record IsNucleus (s : Store) (count : ℕ) (hs : List ℕ) : Type 0 where
  pub rings : Rings
  pub view : View
  pub store : IsStore s rings view hs
  pub counted : count + length view.free ≡ maxproc

-- The same of a kernel.
abbrev pub Holds : Kernel → List ℕ → Type 0
Holds k hs = IsNucleus k.store k.process_count hs

-- The kernel between two exceptions: the process in hand is the running one.
abbrev pub IsKernel : Kernel → Type 0
IsKernel k = Holds k (running k.current_process)

-- Nothing is ready.
abbrev pub NoneReady : Kernel → Type 0
NoneReady k = empty_proc_q ready_queue k.store ≡ true

-- How the processor may be given away in such a state. To a process: it is the running one, and the
-- state loaded is the one saved by its exception or in its PCB. To a handler of the support level:
-- the context is one of the running process. Else nothing is ready, and the counts say how: there
-- is no process; no process is soft-blocked, a deadlock; some is, and none runs; or their count is
-- neither 0 nor positive as an `int`, and the scheduler loops.
abbrev pub Fits : Exit → Kernel → Type 0
Fits (ldst s) k =
    (p : ℕ) × (k.current_process ≡ some p) × ((s ≡ k.exception_state) ⊎ (s ≡ (k.store.pcb p).p_s))
Fits (ldcxt c) k =
    (p type : ℕ) × (k.current_process ≡ some p)
    × (c ≡ (k.support (k.store.pcb p).p_support_struct).sup_except_context type)
Fits halt k = NoneReady k × (k.process_count ≡ 0)
Fits panic k = NoneReady k × (0 < k.process_count) × (k.soft_block_count ≡ 0)
Fits wait k =
    NoneReady k
    × (k.current_process ≡ none)
    × (0 < k.process_count)
    × (signed_lt 0 k.soft_block_count ≡ true)
Fits spin k =
    NoneReady k
    × (0 < k.process_count)
    × (k.soft_block_count ≢ 0)
    × (signed_lt 0 k.soft_block_count ≡ false)

-- A handler ends, leaves the kernel so, and gives the processor away as it should.
abbrev pub Keeps : Outcome → Type 0
Keeps none = ⊥
Keeps (some (x, k)) = IsKernel k × Fits x k
