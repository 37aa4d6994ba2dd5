-- ===== src/Lib.antt =====
-- PandOSsh, a small multitasking kernel for the µRISCV machine, in two phases: the queue manager of
-- phase1 and the nucleus of phase2.
--
-- The parts and their files:
-- - headers/listx.h, the intrusive doubly linked lists: ListX. A `struct list_head` is an address, and
--   the two link fields of all of them are the two functions of `Links`. ListX/Ring follows one chain;
--   ListX/Rings gives every address a role (loose, head of a list, entry of the list at a head);
--   ListX/Operations has the operations, each of which changes one list and leaves all the others.
-- - headers/types.h and const.h: Memory. A PCB or descriptor pointer is its index in the table, NULL
--   is `none` (or 0 where the field is an address), an `int` is its bit pattern below 2 ^ 32.
-- - phase1/pcb.c: Pcb, with proofs in Pcb/Insert, Pcb/Queues, Pcb/Alloc and Pcb/Tree.
-- - phase1/asl.c: Asl. Asl/Inv states the invariant: the list stands for a queue of processes at each
--   semaphore (`waiting`). Asl/Block and Asl/Remove have the operations as a whole.
-- - phase2: Kernel (the variables, scheduler.c, updateCpuTime of utils.c), Terminate and Syscalls
--   (syscalls.c), Traps (traps.c, tlb.c), Interrupts, Exceptions, Initial. Syscalls/Saved, Blocking,
--   Waking, Times, Kernel/Schedule, Time, Interrupts/Devices, Signal and Initial/Boot, First
--   have the proofs.
-- - Nucleus: what holds of all the data of the kernel between two calls, with one file for each group
--   of functions that keeps it. Places says where each PCB is; Moves, Ready, Room, Pcbs and Sleep take
--   one from a list to another or change its fields; Family, Adopt, Children and Orphans are the
--   process tree. On these stand Birth and Created (CreateProcess), Deaths, Frames, Progeny, Ends,
--   Trees, Exact and Fates (termination), Target (the search by id), Services, Timers and Devices;
--   Calls is the dispatch, Start the boot, and Runs the sequences of exceptions, as an inductive
--   relation, with OnePlace on it. Slices is the end of a time slice, Yields is Yield, Drained the
--   loop of the pseudo-clock, and Undo pairs insertBlocked with outBlocked.
-- - memcpy of phase2/utils.c: Utils.
-- - klog.c: Klog, with the bounds of its buffer in Klog/Bounds.
--
-- Functions keep their C names in snake case. A function of phase 1 returns the new `Store`; a
-- handler of phase 2 returns how it gives the processor away (`Exit`) with the new `Kernel`. LDST,
-- LDCXT, HALT, PANIC and WAIT do not return, so a handler ends there; the exit `spin` is the loop of
-- the scheduler that never ends, if nothing is ready and softBlockCount is negative.
--
-- Bounds. A loop over a list takes maxproc + 1 = 21 rounds, since no list has more than the 20
-- entries of its table; `none` means that the rounds ran out, or that NULL was followed. The walk
-- over a process tree has 21 levels: the processes above one another are distinct. The loop of the
-- pseudo-clock takes one round more than the distance of the semaphore from 0, which each round
-- shortens. 32 digits are enough for an unsigned int.
--
-- Not modelled: the test programs p1test.c and p2test.c; a structure is copied as a value, and memcpy,
-- which the compiler calls for that, is modelled on its own over bytes; what the µRISCV headers define is the record `Platform` (layout of the
-- cause and device registers, addresses of functions), and the time of day is the stream `clock`.
-- Device registers and semaphores share one memory of words; a write to it has no other effect. Of
-- `state_t` the registers that the kernel names are fields and the others one function.
pub mod Base
pub mod ListX
pub mod Memory
pub mod Pcb
pub mod Asl
pub mod Kernel
pub mod Utils
pub mod Terminate
pub mod Traps
pub mod Syscalls
pub mod Interrupts
pub mod Exceptions
pub mod Nucleus
pub mod Initial
pub mod Klog
pub mod Tests
