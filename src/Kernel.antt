-- ===== src/Kernel.antt =====
-- The global variables of phase2/initial.c, phase2/scheduler.c and phase2/interrupts.c, the machine
-- that the nucleus reads and writes, and the functions of phase2/utils.c and phase2/scheduler.c.
--
-- A handler ends by giving the processor away: `Exit` says how. `none` means that a pointer that
-- is NULL was followed, or that a loop over a list ran out of rounds.
pub mod Schedule
pub mod Time
use Prim.Native.Nat.{bit_or}
use progetto_so.Base.{
  ℕ, ◌+◌, ◌-◌, ◌%◌, ◌^◌, Bool, not, ◌&&◌, Option, none, some, ◌==◌, if◌then◌else◌, write,
}
use progetto_so.Memory.{State, Pcb, Store, ready_queue, signed_lt}
use progetto_so.Pcb.{empty_proc_q, remove_proc_q}

-- `context_t`
pub record Context : Type 0 where
  pub stack_ptr : ℕ
  pub status : ℕ
  pub pc : ℕ

-- The fields of `support_t` that the nucleus uses, by the type of the exception.
pub record Support : Type 0 where
  pub sup_except_state : ℕ → State
  pub sup_except_context : ℕ → Context

-- `passupvector_t`
pub record PassUpVector : Type 0 where
  pub tlb_refill_handler : ℕ
  pub tlb_refill_stack_ptr : ℕ
  pub exception_handler : ℕ
  pub exception_stack_ptr : ℕ

-- What the headers of the µRISCV platform, the linker and the test program fix: the layout of the
-- cause register and of the device registers, and the addresses of functions and of
-- `deviceSemaphores`.
pub record Platform : Type 0 where
  pub cause_is_int : ℕ → Bool
  pub cause_exccode_mask : ℕ
  pub status : ℕ
  pub command : ℕ
  pub recv_status : ℕ
  pub recv_command : ℕ
  pub transm_status : ℕ
  pub transm_command : ℕ
  pub u_tlb_refill_handler : ℕ
  pub exception_handler : ℕ
  pub test : ℕ
  pub device_semaphores : ℕ

-- The kernel's variables and the machine. `word` is the memory of words (semaphores, device and
-- bus registers), `state_at` the processor states that processes keep, `clock n` what the `n`-th
-- reading of the time of day gives.
pub record Kernel : Type 0 where
  pub store : Store
  pub process_count : ℕ
  pub soft_block_count : ℕ
  pub current_process : Option ℕ
  pub p_start : ℕ
  pub exception_state : State
  pub word : ℕ → ℕ
  pub state_at : ℕ → State
  pub support : ℕ → Support
  pub passupvector : PassUpVector
  pub clock : ℕ → ℕ
  pub readings : ℕ
  pub timer : ℕ
  pub interval_timer : ℕ
  pub mie : ℕ
  pub status : ℕ

pub data Exit : Type 0 where
  ldst : State → Exit
  ldcxt : Context → Exit
  halt panic wait spin : Exit

abbrev pub Outcome : Type 0
Outcome = Option (Exit × Kernel)

-- `x++` and `x--` on an `int`.
abbrev pub incr : ℕ → ℕ
incr x = (x + 1) % 2 ^ 32

abbrev pub decr : ℕ → ℕ
decr x = (x + (2 ^ 32 - 1)) % 2 ^ 32

-- `a - b` on an `int`, for `b` below 2 ^ 32.
abbrev pub sub32 : ℕ → ℕ → ℕ
sub32 a b = (a + 2 ^ 32 - b) % 2 ^ 32

abbrev pub timeslice : ℕ
timeslice = 5000

abbrev pub psecond : ℕ
psecond = 100000

abbrev pub semdevlen : ℕ
semdevlen = 49

abbrev pub mie_all : ℕ
mie_all = 0xffff_ffff

abbrev pub mie_mtie_mask : ℕ
mie_mtie_mask = 0x40

abbrev pub mstatus_mie_mask : ℕ
mstatus_mie_mask = 0x8

abbrev pub set_pcb : ℕ → Pcb → Kernel → Kernel
set_pcb p v k = record k { store = record (k.store) { pcb = write k.store.pcb p v } }

abbrev pub with_store : Kernel → Store → Kernel
with_store k s = record k { store = s }

-- `p_time += now - p_start` on the PCB `p`.
abbrev pub charge : ℕ → ℕ → Kernel → Kernel
charge p now k =
    set_pcb p
      (record (k.store.pcb p) { p_time = ((k.store.pcb p).p_time + sub32 now k.p_start) % 2 ^ 32 })
      k

unfoldable pub update_cpu_time : Kernel → Kernel
update_cpu_time k =
    let now = k.clock k.readings in
    elim k.current_process [
      | some p ↦ record (charge p now k) { p_start = now; readings = k.readings + 1 }
      | none ↦ record k { p_start = now; readings = k.readings + 1 }
    ]

-- The branch of `scheduler` for a ready queue that is not empty.
abbrev pub dispatch : Option ℕ × Store → Kernel → Outcome
dispatch (none, s) k = none
dispatch (some p, s) k = some (
  ldst (s.pcb p).p_s,
  record k {
    store = s;
    current_process = some p;
    timer = timeslice;
    p_start = k.clock k.readings;
    readings = k.readings + 1;
  },
)

-- The branch for an empty one.
unfoldable pub idle : Kernel → Exit × Kernel
idle k =
    if k.process_count == 0
    then (halt, k)
    else if signed_lt 0 k.process_count && (k.soft_block_count == 0)
    then (panic, k)
    else if signed_lt 0 k.process_count && signed_lt 0 k.soft_block_count
    then (
      wait,
      record k {
        current_process = none;
        mie = mie_all - mie_mtie_mask;
        status = bit_or k.status mstatus_mie_mask;
      },
    )
    else (spin, k)

unfoldable pub scheduler : Kernel → Outcome
scheduler k =
    if not (empty_proc_q ready_queue k.store)
    then dispatch (remove_proc_q ready_queue k.store) k
    else some (idle k)
