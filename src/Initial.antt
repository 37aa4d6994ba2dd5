-- ===== src/Initial.antt =====
-- phase2/initial.c: the boot of the nucleus. The machine before it is arbitrary.
pub mod Boot
pub mod First
use Prim.Native.Nat.{bit_or}
use progetto_so.Base.{ℕ, zero, suc, ◌+◌, ◌%◌, ◌^◌, Option, none, some, write, ◌>>=◌}
use progetto_so.Memory.{State, Store, ready_queue}
use progetto_so.Pcb.{init_pcbs, mk_empty_proc_q, alloc_pcb, insert_proc_q}
use progetto_so.Asl.{init_asl}
use progetto_so.Kernel.{
  Platform, Kernel, Outcome, incr, psecond, semdevlen, mie_all, with_store, set_pcb, scheduler,
}
use progetto_so.Terminate.{device_semaphore}

abbrev pub kernelstack : ℕ
kernelstack = 0x20001000

abbrev pub rambaseaddr : ℕ
rambaseaddr = 0x10000000

abbrev pub rambasesize : ℕ
rambasesize = 0x10000004

-- The state that the first process starts in.
abbrev pub first_state : Platform → Kernel → State → State
first_state m k s = record s {
  reg_sp = (k.word rambaseaddr + k.word rambasesize) % 2 ^ 32;
  mie = mie_all;
  status = bit_or 0x80 0x1800;
  pc_epc = m.test;
}

module _ (m : Platform) where
  -- The loop that clears `deviceSemaphores`, from the index `i`.
  unfoldable pub clear_semaphores : ℕ → ℕ → (ℕ → ℕ) → ℕ → ℕ
  clear_semaphores zero i word = word
  clear_semaphores (suc n) i word = clear_semaphores n (i + 1) (write word (device_semaphore m i) 0)

  -- `main` up to the first process.
  unfoldable pub boot : Kernel → Kernel
  boot k = record k {
    passupvector = record {
      tlb_refill_handler = m.u_tlb_refill_handler;
      tlb_refill_stack_ptr = kernelstack;
      exception_handler = m.exception_handler;
      exception_stack_ptr = kernelstack;
    };
    store = mk_empty_proc_q ready_queue (init_asl (init_pcbs k.store));
    process_count = 0;
    soft_block_count = 0;
    current_process = none;
    word = clear_semaphores semdevlen 0 k.word;
    interval_timer = psecond;
  }

  abbrev pub first_process : Kernel → Option ℕ × Store → Option Kernel
  first_process k (none, s) = some (with_store k s)
  first_process k (some p, s) = insert_proc_q ready_queue p s >>= λ t.
      let q = t.pcb p in
      some (
        set_pcb p (record q { p_s = first_state m k q.p_s })
          (record k { store = t; process_count = incr k.process_count }))

  unfoldable pub main : Kernel → Outcome
  main k = let j = boot k in first_process j (alloc_pcb j.store) >>= scheduler
