-- ===== src/Interrupts.antt =====
-- phase2/interrupts.c: the timers and the devices. The state saved at the interrupt,
-- `saved_interrupt_state`, is the field `exception_state`.
pub mod Devices
pub mod Signal
use Prim.Native.Nat.{bit_and}
use progetto_so.Base.{
  ℕ, zero, suc, ◌+◌, ◌-◌, ◌*◌, ◌/◌, ◌%◌, ◌^◌, ◌||◌, Option, none, some, ◌==◌, leb, if◌then◌else◌,
  ◌>>=◌,
}
use progetto_so.Memory.{Store, ready_queue}
use progetto_so.Pcb.{insert_proc_q}
use progetto_so.Asl.{remove_blocked}
use progetto_so.Kernel.{
  Platform, Kernel, panic, Outcome, incr, decr, timeslice, psecond, with_store, set_pcb,
  update_cpu_time, scheduler,
}
use progetto_so.Terminate.{device_semaphore}
use progetto_so.Syscalls.Common.{resume, save_state, write_word}

-- Return to the interrupted process, or pick another if none was running.
abbrev pub resume_or_schedule : Kernel → Outcome
resume_or_schedule k = elim k.current_process [ none ↦ scheduler k | some _ ↦ resume k ]

-- The interrupted process goes back into the ready queue.
unfoldable pub preempt : Kernel → Option Kernel
preempt k = elim k.current_process [
  | none ↦ some k
  | some p ↦
      (let j = save_state p k in insert_proc_q ready_queue p j.store >>= λ s. some (with_store j s))
]

unfoldable pub handle_plt : Kernel → Outcome
handle_plt k = preempt (update_cpu_time (record k { timer = timeslice })) >>= scheduler

-- `if (p != NULL) { insertProcQ(&readyQueue, p); softBlockCount--; }`
abbrev pub ready_unblocked : Kernel → Option ℕ × Store → Option Kernel
ready_unblocked k (none, s) = some (with_store k s)
ready_unblocked k (some p, s) = insert_proc_q ready_queue p s >>= λ t.
    some (record k { store = t; soft_block_count = decr k.soft_block_count })

-- The loop of `handlePseudoClock` over the processes that wait at the semaphore `sem`.
unfoldable pub unblock_all : ℕ → ℕ → Kernel → Option Kernel
unblock_all zero sem k = none
unblock_all (suc rounds) sem k =
    if leb (2 ^ 31) (k.word sem)
    then (let j = write_word sem (incr (k.word sem)) k in
        remove_blocked sem j.store >>= ready_unblocked j >>= λ i. unblock_all rounds sem i)
    else some k

-- The first device, from the number `i`, whose bit is set in the bitmap.
unfoldable pub scan_bitmap : ℕ → ℕ → ℕ → Option ℕ
scan_bitmap zero i bitmap = none
scan_bitmap (suc n) i bitmap =
    let rest = scan_bitmap n (i + 1) bitmap in if (bitmap / 2 ^ i) % 2 == 1 then some i else rest

-- The status of a waiting process's device goes to its register `a0`.
abbrev pub ready_served : ℕ → Kernel → Option ℕ × Store → Option Kernel
ready_served status k (none, s) = some (with_store k s)
ready_served status k (some p, s) =
    let j = with_store k s in
    let q = s.pcb p in
    ready_unblocked (set_pcb p (record q { p_s = record (q.p_s) { reg_a0 = status } }) j)
      (some p, (set_pcb p (record q { p_s = record (q.p_s) { reg_a0 = status } }) j).store)

-- The base address of the registers of a device.
abbrev pub device_base : ℕ → ℕ → ℕ
device_base line dev = 0x10000054 + (line - 3) * 0x80 + dev * 0x10

-- The index into `deviceSemaphores` of a device that is no terminal, or of a terminal's receiver.
abbrev pub semaphore_index : ℕ → ℕ → ℕ
semaphore_index line dev = (line - 3) * 8 + dev

module _ (m : Platform) where
  unfoldable pub handle_pseudo_clock : Kernel → Outcome
  handle_pseudo_clock k =
      let j = record k { interval_timer = psecond } in
      let sem = device_semaphore m 48 in
      unblock_all (2 ^ 32 + 1 - j.word sem % 2 ^ 32) sem j >>= λ i.
      resume_or_schedule (update_cpu_time i)

  -- The acknowledgement: the status of the device, the index of its semaphore and the new memory.
  unfoldable pub acknowledge : ℕ → ℕ → Kernel → ℕ × ℕ × Kernel
  acknowledge line dev k =
      let base = device_base line dev in
      let index = semaphore_index line dev in
      if line == 7
      then (if bit_and (k.word (base + m.transm_status)) 0xff == 5
          then (
            k.word (base + m.transm_status),
            index + 8,
            write_word (base + m.transm_command) 1 k,
          )
          else (k.word (base + m.recv_status), index, write_word (base + m.recv_command) 1 k))
      else (k.word (base + m.status), index, write_word (base + m.command) 1 k)

  -- V on the semaphore of the device, with its status for the process that waits.
  unfoldable pub signal_device : ℕ × ℕ × Kernel → Option Kernel
  signal_device (status, index, k) =
      let sem = device_semaphore m index in
      let j = write_word sem (incr (k.word sem)) k in
      if (j.word sem == 0) || leb (2 ^ 31) (j.word sem)
      then remove_blocked sem j.store >>= ready_served status j
      else some j

  abbrev pub resume_timed : Kernel → Outcome
  resume_timed k = elim k.current_process [
    | none ↦ scheduler k
    | some _ ↦ resume (update_cpu_time k)
  ]

  unfoldable pub handle_device : ℕ → Kernel → Outcome
  handle_device line k = elim (scan_bitmap 8 0 (k.word (0x10000040 + (line - 3) * 4))) [
    | none ↦ resume_or_schedule k
    | some dev ↦ signal_device (acknowledge line dev k) >>= resume_timed
  ]

  unfoldable pub interrupt_handler : ℕ → Kernel → Outcome
  interrupt_handler cause k =
      let code = bit_and cause m.cause_exccode_mask in
      if code == 7
      then handle_plt k
      else if code == 3
      then handle_pseudo_clock k
      else if code == 17
      then handle_device 3 k
      else if code == 18
      then handle_device 4 k
      else if code == 19
      then handle_device 5 k
      else if code == 20
      then handle_device 6 k
      else if code == 21
      then handle_device 7 k
      else some (panic, k)
