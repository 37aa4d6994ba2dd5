-- ===== src/Tests/Services.antt =====
-- The theorems on the services of the nucleus that block and wake processes at a concrete machine.
use progetto_so.Base.{ℕ, ◌≡◌, ◌≢◌, refl, sym, ◌∙◌, some, [], inl, arith, write, write_ne}
use progetto_so.ListX.Rings.{Rings, head, loose, loose-ne-in_ring}
use progetto_so.Memory.{
  Store, p_list, s_procq, s_link, semd_h, semd_free_h, ready_queue, with_links,
}
use progetto_so.Pcb.Alloc.{no_rings, table}
use progetto_so.Kernel.{Kernel, decr}
use progetto_so.Asl.{init_asl, insert_blocked}
use progetto_so.Asl.Inv.{IsAsl, find_key}
use progetto_so.Asl.Init.{NoAsl, asl_rings, semds_freed, init_asl-IsAsl}
use progetto_so.Asl.Block.{Waits, insert_blocked-Waits}
use progetto_so.Syscalls.Semaphores.{device_index, passeren, do_io, wait_for_clock}
use progetto_so.Syscalls.Saved.{Suspends}
use progetto_so.Syscalls.Blocking.{passeren-Suspends, do_io-Suspends, wait_for_clock-Suspends}
use progetto_so.Kernel.{Platform}
use progetto_so.Tests.Data.{blank, one_head, one_head_rings, one_head-Linked}
use progetto_so.Tests.Machine.{board, running, zero_state}

-- The ready queue is empty, and no descriptor is in use.
abbrev ready_store : Store
ready_store = with_links blank (one_head ready_queue)

abbrev ready_rings : Rings
ready_rings = one_head_rings ready_queue

ready_loose : (a : ℕ) → a ≢ ready_queue → ready_rings.role a ≡ loose
ready_loose a ne = write_ne no_rings.role ready_queue head a ne

ready-NoAsl : NoAsl ready_store ready_rings
ready-NoAsl = record {
  linked = one_head-Linked ready_queue;
  links = λ j. ready_loose (s_link j) (omega arith);
  sentinels = λ j k e. loose-ne-in_ring k (sym (ready_loose (s_procq j) (omega arith)) ∙ e);
  active = λ k e. loose-ne-in_ring k (sym (ready_loose semd_h (omega arith)) ∙ e);
  free = λ k e. loose-ne-in_ring k (sym (ready_loose semd_free_h (omega arith)) ∙ e);
}

ready : IsAsl (init_asl ready_store) (asl_rings ready_rings) [] table (λ _. [])
ready = (init_asl-IsAsl ready_store ready_rings ready-NoAsl).0

loose_pcb : (asl_rings ready_rings).role (p_list 7) ≡ loose
unfolding semds_freed
loose_pcb = refl

some_free : table ≢ []
some_free e = cc

-- The process 7 runs; its register `a1` is the argument.
abbrev calling : ℕ → Kernel
calling a1 = record (running (init_asl ready_store) (some 7)) {
  exception_state = record zero_state { reg_a1 = a1 };
}

passeren-Suspends_example :
    Suspends
      (calling 1000)
      (asl_rings ready_rings)
      []
      (λ _. [])
      1000
      7
      1
      (write (λ _. 0) 1000 (decr 0))
      (passeren (calling 1000))
unfolding find_key
passeren-Suspends_example =
    passeren-Suspends (calling 1000) ready 7 refl loose_pcb (omega arith) (inl some_free) (inl refl)

-- The command register of the first disk.
do_io-Suspends_example :
    Suspends
      (calling 0x1000_0058)
      (asl_rings ready_rings)
      []
      (λ _. [])
      0x2000_2000
      7
      2
      (write (write (λ _. 0) 0x2000_2000 (decr 0)) 0x1000_0058 0)
      (do_io board (calling 0x1000_0058))
unfolding find_key device_index
do_io-Suspends_example =
    do_io-Suspends board (calling 0x1000_0058) ready 7 0x2000_2000 refl refl loose_pcb (omega arith)
      (inl some_free)

wait_for_clock-Suspends_example :
    Suspends
      (calling 0)
      (asl_rings ready_rings)
      []
      (λ _. [])
      0x2000_20c0
      7
      2
      (write (λ _. 0) 0x2000_20c0 (decr 0))
      (wait_for_clock board (calling 0))
unfolding find_key
wait_for_clock-Suspends_example =
    wait_for_clock-Suspends board (calling 0) ready 7 0x2000_20c0 refl refl loose_pcb (omega arith)
      (inl some_free)

-- The process 7 waits at the semaphore 1000.
one_waits :
    Waits
      (init_asl ready_store)
      (asl_rings ready_rings)
      []
      table
      (λ _. [])
      1000
      7
      (insert_blocked 1000 7 (init_asl ready_store))
unfolding find_key
one_waits = insert_blocked-Waits ready 1000 7 loose_pcb (omega arith) (inl some_free)

abbrev signalling : Kernel
signalling = record (running one_waits.store (some 2)) { word = λ _. 0xffff_ffff }

-- The semaphore 1000 is the first one of the devices.
abbrev low_board : Platform
low_board = record board { device_semaphores = 1000 }
