-- ===== src/Syscalls/Semaphores.antt =====
-- phase2/syscalls.c: the services on semaphores, the ones of the devices among them.
use progetto_so.Base.{
  ℕ, ◌+◌, ◌/◌, ◌%◌, ◌^◌, ◌&&◌, ◌||◌, Option, none, some, ◌==◌, ltb, leb, if◌then◌else◌, ◌>>=◌,
}
use progetto_so.Memory.{Store, ready_queue}
use progetto_so.Pcb.{insert_proc_q}
use progetto_so.Asl.{remove_blocked}
use progetto_so.Kernel.{
  Platform, Kernel, Outcome, incr, decr, sub32, with_store, update_cpu_time, scheduler,
}
use progetto_so.Terminate.{device_semaphore}
use progetto_so.Syscalls.Common.{advance, resume, insert_blocked_current, save_state, write_word}

abbrev pub start_devreg : ℕ
start_devreg = 0x10000054

-- The branch of `Passeren` that blocks the current process, after the decrement.
unfoldable pub block_current : ℕ → Kernel → Outcome
block_current sem k =
    let k₁ = update_cpu_time (advance k) in
    do
      p ← k₁.current_process
      k₂ ← insert_blocked_current sem p (save_state p k₁)
      scheduler (record k₂ { current_process = none })

unfoldable pub passeren : Kernel → Outcome
passeren k =
    let sem = k.exception_state.reg_a1 in
    let k₁ = write_word sem (decr (k.word sem)) k in
    if ltb (k₁.word sem) (2 ^ 31) then resume (advance k₁) else block_current sem k₁

abbrev pub wake : Kernel → Option ℕ × Store → Outcome
wake k (none, s) = resume (advance (with_store k s))
wake k (some p, s) = insert_proc_q ready_queue p s >>= λ t. resume (advance (with_store k t))

unfoldable pub verhogen : Kernel → Outcome
verhogen k =
    let sem = k.exception_state.reg_a1 in
    let k₁ = write_word sem (incr (k.word sem)) k in
    if (k₁.word sem == 0) || leb (2 ^ 31) (k₁.word sem)
    then remove_blocked sem k₁.store >>= wake k₁
    else resume (advance k₁)

-- The index into `deviceSemaphores` that `DoIO` computes from the address of a command register.
unfoldable pub device_index : ℕ → ℕ
device_index command_addr =
    let offset = sub32 command_addr start_devreg in
    let index = offset / 0x10 in if leb 32 index && (offset % 0x10 == 0xc) then index + 8 else index

module _ (m : Platform) where
  unfoldable pub do_io : Kernel → Outcome
  do_io k =
      let command_addr = k.exception_state.reg_a1 in
      let command_value = k.exception_state.reg_a2 in
      let sem = device_semaphore m (device_index command_addr) in
      let k₁ = update_cpu_time (advance (write_word sem (decr (k.word sem)) k)) in
      do
        p ← k₁.current_process
        k₂ ← insert_blocked_current sem p (save_state p k₁)
        scheduler (record (write_word command_addr command_value k₂) {
          soft_block_count = incr k₂.soft_block_count;
          current_process = none;
        })

  unfoldable pub wait_for_clock : Kernel → Outcome
  wait_for_clock k =
      let sem = device_semaphore m 48 in
      let k₁ = update_cpu_time (advance (write_word sem (decr (k.word sem)) k)) in
      do
        p ← k₁.current_process
        k₂ ← insert_blocked_current sem p (save_state p k₁)
        scheduler
            (record k₂ { soft_block_count = incr k₂.soft_block_count; current_process = none })
