-- ===== src/Syscalls.antt =====
-- phase2/syscalls.c: the dispatch of a system call to the ten services of the nucleus. The state
-- saved at the entry, `caller_state` of each service, is the field `exception_state`.
pub mod Common
pub mod Processes
pub mod Semaphores
pub mod Queries
pub mod Times
pub mod Saved
pub mod Blocking
pub mod Waking
use Prim.Native.Nat.{bit_and}
use progetto_so.Base.{ℕ, ◌-◌, ◌^◌, ◌==◌, if◌then◌else◌}
use progetto_so.Kernel.{Platform, Kernel, Outcome}
use progetto_so.Traps.{generalexcept, pass_up_or_die}
use Processes.{create_process, terminate_process}
use Semaphores.{passeren, verhogen, do_io, wait_for_clock}
use Queries.{get_cpu_time, get_support_data, get_process_id, yield}

-- A negative constant of headers/const.h, as the bit pattern in the register.
abbrev pub minus : ℕ → ℕ
minus n = 2 ^ 32 - n

abbrev pub mstatus_mpp_mask : ℕ
mstatus_mpp_mask = 0x1800

abbrev pub mstatus_mpp_m : ℕ
mstatus_mpp_m = 0x1800

abbrev pub privinstr : ℕ
privinstr = 10

module _ (m : Platform) where
  -- The switch over the service number.
  unfoldable pub serve : ℕ → Kernel → Outcome
  serve id k =
      if id == minus 1
      then create_process k
      else if id == minus 2
      then terminate_process m k
      else if id == minus 3
      then passeren k
      else if id == minus 4
      then verhogen k
      else if id == minus 5
      then do_io m k
      else if id == minus 6
      then get_cpu_time k
      else if id == minus 7
      then wait_for_clock m k
      else if id == minus 8
      then get_support_data k
      else if id == minus 9
      then get_process_id k
      else if id == minus 10
      then yield k
      else pass_up_or_die m generalexcept k

  unfoldable pub syscall_exception_handler : Kernel → Outcome
  syscall_exception_handler k =
      if bit_and k.exception_state.status mstatus_mpp_mask == mstatus_mpp_m
      then serve k.exception_state.reg_a0 k
      else pass_up_or_die m generalexcept
          (record k { exception_state = record (k.exception_state) { cause = privinstr } })
