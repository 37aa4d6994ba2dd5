-- ===== src/Tests/Whole.antt =====
-- The theorems on the whole kernel at a machine that has been booted.
use progetto_so.Syscalls.Queries.{yield}
use progetto_so.Nucleus.Yields.{Yielded, yield-Yielded}
use progetto_so.Interrupts.{handle_plt}
use progetto_so.Nucleus.Slices.{Preempted, handle_plt-Preempted}
use progetto_so.Nucleus.OnePlace.{Place, At, Reached-one_place}
use progetto_so.Syscalls.Processes.{create_process}
use progetto_so.Nucleus.Created.{Creates, create_process-Creates}
use progetto_so.Base.{ℕ, List, ◌∷◌}
use progetto_so.Pcb.Alloc.{taken, Allocated, alloc_pcb-Allocated}
use progetto_so.Nucleus.{Holds}
use progetto_so.Memory.{Pcb}
use progetto_so.Base.{
  ◌-◌, ◌^◌, ◌≡◌, ◌⊎◌, true, inr, refl, inl, none, some, [], false, arith, ◌+◌, ◌%◌, ap, length,
  write,
}
use progetto_so.Memory.{maxproc, Store}
use progetto_so.Asl.{init_asl, insert_blocked, out_blocked}
use progetto_so.Asl.Inv.{find_key, waiting}
use progetto_so.Asl.Block.{Waits}
use progetto_so.Pcb.{alloc_pcb}
use progetto_so.Initial.{boot}
use progetto_so.Initial.Boot.{boot_rings}
use progetto_so.Interrupts.{unblock_all}
use progetto_so.Nucleus.Family.{born-IsStore}
use progetto_so.Nucleus.Birth.{free_apart}
use progetto_so.Nucleus.Drained.{Drained, unblock_all-Drained}
use progetto_so.Pcb.Alloc.{table}
use progetto_so.Kernel.{Kernel, Exit, ldst, Outcome}
use progetto_so.Terminate.{terminate_process_tree}
use progetto_so.Syscalls.Processes.{root_from, find_pcb_by_pid}
use progetto_so.Initial.{main}
use progetto_so.Initial.First.{Started, main-Started}
use progetto_so.Exceptions.{exception_handler}
use progetto_so.Nucleus.{View, IsStore, IsNucleus, IsKernel, Keeps}
use progetto_so.Nucleus.Sleep.{insert_blocked-IsStore, insert_blocked-IsNucleus}
use progetto_so.Nucleus.Services.{current-Holds}
use progetto_so.Nucleus.Exact.{Exactly, terminate_process_tree-Exactly}
use progetto_so.Nucleus.Target.{IsRoot, Found, target-Found}
use progetto_so.Nucleus.Fates.{current-IsProcess}
use Prim.Native.Nat.{bit_and}
use progetto_so.Nucleus.Devices.{Unserved}
use progetto_so.Nucleus.Calls.{exception_handler-Keeps}
use progetto_so.Nucleus.Start.{first_view, boot-IsStore, main-Keeps}
use progetto_so.Nucleus.Runs.{Keeps-some, IsExpected, Resumes, Reached}
use progetto_so.Nucleus.Undo.{Restored, out_blocked-insert_blocked}
use progetto_so.Tests.Data.{blank}
use progetto_so.Tests.Machine.{board, running, zero_state}
use progetto_so.Tests.Semaphores.{started, loose_pcb, some_free}

abbrev cold : Kernel
cold = running blank none

main-Keeps_example : Keeps (main board cold)
main-Keeps_example = main-Keeps board cold (λ p. refl)

-- The kernel while the first process runs.
first : Started board cold (main board cold)
first = main-Started board cold

first-IsKernel : IsKernel first.kernel
first-IsKernel =
    Keeps-some (main board cold) (ldst first.state) first.kernel first.outcome
      (main-Keeps board cold (λ p. refl))

-- The first process calls Passeren on the semaphore 1000, whose value is 0.
abbrev calling : Kernel
calling = record (first.kernel) { exception_state = record zero_state { reg_a0 = 2 ^ 32 - 3 } }

expected : IsExpected board 11 calling
expected = record {
  from_process = λ _. (19, first.current);
  semaphore = λ _ e. omega arith;
  device = λ e. omega arith;
  clock = λ e. omega arith;
}

returned :
    (cause : ℕ) (k : Kernel) (o : Outcome)
    → Keeps o
      ⊎ ((board.cause_is_int cause ≡ true) × Unserved (bit_and cause board.cause_exccode_mask) k o)
    → (x : Exit) × (l : Kernel) × (o ≡ some (x, l))
returned cause k none (inl h) = elim h [ ]
returned cause k none (inr (_, (_, _, _, _, _, _, _, u))) = absurd (let q : ⊥ = cc in q)
returned cause k (some (x, l)) h = (x, l, refl)

after : (x : Exit) × (l : Kernel) × (exception_handler board 11 calling ≡ some (x, l))
after = returned 11 calling (exception_handler board 11 calling) (
    exception_handler-Keeps board 11 calling first-IsKernel expected.from_process expected.semaphore
      expected.device expected.clock)

Reached-one_place_example :
    (n : IsKernel after.1) × ((l : Place) × At after.1 n 7 l
      × ((l' : Place) → At after.1 n 7 l' → l' ≡ l))
Reached-one_place_example =
    Reached-one_place board after.0 after.1
      (Reached.handled (ldst first.state) first.kernel calling 11 after.0 after.1
        (Reached.started cold (ldst first.state) first.kernel (λ p. refl) first.outcome)
        (Resumes.process first.state)
        (record { same_store = refl; same_count = refl; same_blocked = refl; same_current = refl })
        expected after.2)
      7 (omega arith)

terminate_process_tree-Exactly_example :
    Exactly first.kernel first-IsKernel 19 (terminate_process_tree board 19 first.kernel)
terminate_process_tree-Exactly_example =
    terminate_process_tree-Exactly board 19 first.kernel first-IsKernel (omega arith)
      (current-IsProcess first.kernel first-IsKernel 19 first.current).1 first.orphan

target-Found_example :
    (q : ℕ) × (root_from (maxproc + 1) 19 first.kernel.store ≡ some q)
    × IsRoot first.kernel.store 19 q
    × Found first.kernel.store first-IsKernel.view.free 1 q (find_pcb_by_pid q 1 first.kernel.store)
target-Found_example =
    target-Found first-IsKernel.store 19 1
      (current-IsProcess first.kernel first-IsKernel 19 first.current)

insert_blocked-IsNucleus_example :
    (t : Store) × (insert_blocked 1000 19 first.kernel.store ≡ some (false, t))
    × IsNucleus t first.kernel.process_count []
insert_blocked-IsNucleus_example =
    insert_blocked-IsNucleus first.kernel.store first.kernel.process_count 19 1000 []
      (current-Holds first.kernel 19 first.current first-IsKernel) (omega arith)

out_blocked-insert_blocked_example :
    (t u : Store) × (insert_blocked 1000 7 (init_asl blank) ≡ some (false, t))
    × (out_blocked 7 t ≡ some (some 7, u))
    × Restored (init_asl blank) [] table (λ _. []) 7 1000 u
unfolding find_key
out_blocked-insert_blocked_example =
    out_blocked-insert_blocked started 1000 7 (omega arith) loose_pcb (omega arith) (inl some_free)

-- The PCB 19 has been allocated after the boot and waits at the semaphore 1000.
abbrev others : List ℕ
others = 18 ∷ 17 ∷ 16 ∷ 15 ∷ 14 ∷ 13 ∷ 12 ∷ 11 ∷ 10 ∷ 9 ∷ 8 ∷ 7 ∷ 6 ∷ 5 ∷ 4 ∷ 3 ∷ 2 ∷ 1 ∷ 0 ∷ []

abbrev booted : Store
booted = (boot board cold).store

booted-IsStore : IsStore booted boot_rings first_view []
booted-IsStore = boot-IsStore board cold (λ p. refl)

allocated : Allocated booted boot_rings table (alloc_pcb booted)
allocated =
    alloc_pcb-Allocated booted boot_rings table booted-IsStore.asl.linked
      booted-IsStore.queues.free_head booted-IsStore.queues.free_entries (free_apart booted-IsStore)

abbrev one_view : View
one_view = record first_view {
  free = others;
  children = write (λ _. []) 19 [];
  rank = write (λ _. 0) 19 0;
}

one-IsStore : IsStore allocated.0 (taken booted boot_rings 19 others) one_view (19 ∷ [])
one-IsStore =
    let (t, _, l, fresh, same, keys, _) = allocated in
    born-IsStore t first_view [] 19 0 others booted-IsStore (ap (λ (x : Pcb). x.p_parent) fresh)
      same l keys

sleeping :
    (w : Waits allocated.0
      (taken booted boot_rings 19 others)
      []
      table
      (λ _. [])
      1000
      19
      (insert_blocked 1000 19 allocated.0))
    × IsStore w.store w.rings (record one_view { js = w.active; fs = w.free; queue = w.queues }) []
sleeping = insert_blocked-IsStore 19 1000 one-IsStore (omega arith)

abbrev tick : Kernel
tick = record cold { store = sleeping.0.store; process_count = 1; word = λ _. 2 ^ 32 - 1 }

abbrev tick_holds : Holds tick []
tick_holds = record {
  rings = sleeping.0.rings;
  view = record one_view {
    js = sleeping.0.active;
    fs = sleeping.0.free;
    queue = sleeping.0.queues;
  };
  store = sleeping.1;
  counted = refl;
}

one_sleeps : waiting tick.store tick_holds.view.js tick_holds.view.queue 1000 ≡ 19 ∷ []
unfolding find_key
one_sleeps = sleeping.0.waits 1000

unblock_all-Drained_example :
    Drained tick [] tick_holds 1000
      (waiting tick.store tick_holds.view.js tick_holds.view.queue 1000)
      (unblock_all (2 ^ 32 + 1 - tick.word 1000 % 2 ^ 32) 1000 tick)
unblock_all-Drained_example =
    unblock_all-Drained 1000 tick [] tick_holds (omega arith)
      (ap (λ xs. (2 ^ 32 - 1 + length xs) % 2 ^ 32) one_sleeps)

create_process-Creates_example :
    Creates first.kernel 19
      (current-Holds first.kernel 19 first.current first-IsKernel)
      (current-Holds first.kernel 19 first.current first-IsKernel).view.free
      (create_process first.kernel)
create_process-Creates_example =
    create_process-Creates first.kernel 19
      (current-Holds first.kernel 19 first.current first-IsKernel) first.current

handle_plt-Preempted_example :
    Preempted first.kernel 19
      (current-Holds first.kernel 19 first.current first-IsKernel)
      (handle_plt first.kernel)
handle_plt-Preempted_example =
    handle_plt-Preempted first.kernel 19
      (current-Holds first.kernel 19 first.current first-IsKernel) first.current

yield-Yielded_example :
    Yielded first.kernel 19
      (current-Holds first.kernel 19 first.current first-IsKernel)
      (yield first.kernel)
yield-Yielded_example =
    yield-Yielded first.kernel 19 (current-Holds first.kernel 19 first.current first-IsKernel)
      first.current
