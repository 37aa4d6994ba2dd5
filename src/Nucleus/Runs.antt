-- ===== src/Nucleus/Runs.antt =====
-- The kernel from the boot on: `main` of phase2/initial.c, then one exception after the other
-- through `exceptionHandler` of phase2/exceptions.c.
use progetto_so.Base.{ℕ, ◌≡◌, ◌≢◌, inl, inr, sym, ◌∙◌, ap, subst, false, none, some}
use progetto_so.Memory.{State}
use progetto_so.Kernel.{Platform, Kernel, Context, Exit, ldst, ldcxt, wait, Outcome}
use progetto_so.Terminate.{device_semaphore}
use progetto_so.Syscalls.{minus}
use progetto_so.Syscalls.Semaphores.{device_index}
use progetto_so.Initial.{main}
use progetto_so.Exceptions.{exception_handler}
use progetto_so.Nucleus.{IsKernel, Keeps, running}
use progetto_so.Nucleus.Ready.{IsKernel-of}
use progetto_so.Nucleus.Calls.{exception_handler-Keeps}
use progetto_so.Nucleus.Start.{main-Keeps}

-- What runs between two exceptions, a process or the idle processor, leaves the kernel's own
-- variables alone. Memory, the registers and the timers may change.
pub record Between (k j : Kernel) : Type 0 where
  pub same_store : j.store ≡ k.store
  pub same_count : j.process_count ≡ k.process_count
  pub same_blocked : j.soft_block_count ≡ k.soft_block_count
  pub same_current : j.current_process ≡ k.current_process

-- An exception that the kernel is meant for: only an interrupt comes while no process runs, and a
-- process names a semaphore where a service wants one.
pub record IsExpected (m : Platform) (cause : ℕ) (k : Kernel) : Type 0 where
  pub from_process : m.cause_is_int cause ≡ false → (p : ℕ) × (k.current_process ≡ some p)
  pub semaphore : k.exception_state.reg_a0 ≡ minus 3 → k.exception_state.reg_a1 ≢ 0
  pub device :
      k.exception_state.reg_a0 ≡ minus 5
      → device_semaphore m (device_index k.exception_state.reg_a1) ≢ 0
  pub clock : k.exception_state.reg_a0 ≡ minus 7 → device_semaphore m 48 ≢ 0

-- The processor goes on after the kernel has left it so.
pub data Resumes : Exit → Type 0 where
  process : (s : State) → Resumes (ldst s)
  handler : (c : Context) → Resumes (ldcxt c)
  idle : Resumes wait

-- How the kernel is left, and its state then, after the boot and after each exception.
pub data Reached (m : Platform) : Exit → Kernel → Type 0 where
  started :
      (k : Kernel) (x : Exit) (j : Kernel)
      → ((p : ℕ) → (k.store.pcb p).p_parent ≡ none)
      → main m k ≡ some (x, j)
      → Reached m x j
  handled :
      (w : Exit) (k j : Kernel) (cause : ℕ) (x : Exit) (l : Kernel)
      → Reached m w k
      → Resumes w
      → Between k j
      → IsExpected m cause j
      → exception_handler m cause j ≡ some (x, l)
      → Reached m x l

pub Keeps-some : (o : Outcome) (x : Exit) (j : Kernel) → o ≡ some (x, j) → Keeps o → IsKernel j
Keeps-some o x j e h = (subst Keeps e h).0

-- The kernel that is left is well formed.
abbrev Left : Outcome → Type 0
Left none = ⊥
Left (some (x, k)) = IsKernel k

-- After a panic at an unserved interrupt the kernel is as it was.
handled-IsKernel :
    (m : Platform) (cause : ℕ) (j : Kernel) (x : Exit) (l : Kernel)
    → IsExpected m cause j
    → IsKernel j
    → exception_handler m cause j ≡ some (x, l)
    → IsKernel l
handled-IsKernel m cause j x l e n run =
    elim (exception_handler-Keeps m cause j n e.from_process e.semaphore e.device e.clock) [
      | inl h ↦ Keeps-some (exception_handler m cause j) x l run h
      | inr (_, (_, _, _, _, _, _, _, u)) ↦ subst Left (sym u ∙ run) n
    ]

IsKernel-between : (k j : Kernel) → Between k j → IsKernel k → IsKernel j
IsKernel-between k j b n = IsKernel-of j b.same_store b.same_count (ap running b.same_current) n

-- The invariant of the whole kernel holds after the boot of a machine whose PCBs name no parent and
-- after any sequence of exceptions: each comes when the kernel has left the processor to a process,
-- to a handler of the support level or idle, what ran before it left the kernel's variables alone,
-- only an interrupt comes while no process runs, and no service is asked for a NULL semaphore.
pub Reached-IsKernel : (m : Platform) (x : Exit) (k : Kernel) → Reached m x k → IsKernel k
Reached-IsKernel m _ _ (started k x j cleared run) =
    Keeps-some (main m k) x j run (main-Keeps m k cleared)
Reached-IsKernel m _ _ (handled w k j cause x l before on b e run) =
    handled-IsKernel m cause j x l e (IsKernel-between k j b (Reached-IsKernel m w k before)) run
