-- ===== src/Syscalls/Blocking.antt =====
-- The services of phase2/syscalls.c that block the caller, on top of `insertBlocked`.
use progetto_so.Base.{
  ℕ, ◌^◌, ◌<◌, ◌≡◌, ◌≢◌, ◌⊎◌, refl, sym, ap, ◌∙◌, some, none, List, [], arith, length, write,
  write_self, inl, inr, false, ltb, ◌>>=◌,
}
use progetto_so.ListX.Rings.{Rings, loose}
use progetto_so.Memory.{maxproc, Pcb, p_list}
use progetto_so.Kernel.{Platform, Kernel, Outcome, incr, decr, update_cpu_time, scheduler}
use progetto_so.Asl.{insert_blocked}
use progetto_so.Asl.Inv.{IsAsl, find_key, waiting}
use progetto_so.Asl.Block.{Waits, insert_blocked-Waits}
use progetto_so.Terminate.{device_semaphore}
use progetto_so.Syscalls.Common.{advance, save_state, write_word, insert_blocked_current}
use progetto_so.Syscalls.Semaphores.{block_current, passeren, do_io, wait_for_clock, device_index}
use progetto_so.Syscalls.Saved.{
  IsAsl-pcbs, Suspends, charged, saved, saved_current, saved_self, saved_ne, saved_named,
}

module _ (k : Kernel) {r : Rings} {js fs : List ℕ} {queue : ℕ → List ℕ}
    (v : IsAsl k.store r js fs queue) (sem p : ℕ) (hp : r.role (p_list p) ≡ loose)
    (room : length (waiting k.store js queue sem) < maxproc)
    (able : (fs ≢ []) ⊎ (find_key k.store.s_key sem js ≢ none)) where
  blocked : Waits (saved p k).store r js fs queue sem p (insert_blocked sem p (saved p k).store)
  blocked =
      insert_blocked-Waits (IsAsl-pcbs v (saved p k).store.pcb (saved_named k p)) sem p hp room able

  -- The kernel once `p` is blocked, with its counts and words changed.
  abbrev put_to_sleep : ℕ → (ℕ → ℕ) → Kernel
  put_to_sleep soft word = record (saved p k) {
    store = blocked.store;
    current_process = none;
    soft_block_count = soft;
    word = word;
  }

  put_to_sleep-Suspends :
      (soft : ℕ) (word : ℕ → ℕ) (o : Outcome)
      → o ≡ scheduler (put_to_sleep soft word)
      → Suspends k r js queue sem p soft word o
  put_to_sleep-Suspends soft word o e = record {
    asleep = put_to_sleep soft word;
    rings = blocked.rings;
    active = blocked.active;
    free = blocked.free;
    queues = blocked.queues;
    outcome = e;
    valid = blocked.valid;
    waits = blocked.waits;
    caller = blocked.named ∙ ap (λ (x : Pcb). record x { p_sem_add = sem }) (saved_self k p);
    others = λ q ne. blocked.others q ne ∙ saved_ne k p q ne;
    kept = blocked.kept;
    no_current = refl;
    counts = (refl, refl);
    words = refl;
  }

  insert_blocked_current-blocked :
      (word : ℕ → ℕ)
      → insert_blocked_current sem p (saved p (record k { word = word }))
        ≡ some (record (saved p k) { word = word; store = blocked.store })
  unfolding insert_blocked_current
  insert_blocked_current-blocked word = rw blocked.returns refl

  -- The chain of calls that the three services share, with the rest `next` of the service.
  sleep_run :
      (word : ℕ → ℕ) (next : Kernel → Outcome)
      → k.current_process ≡ some p
      → ((update_cpu_time (advance (record k { word = word }))).current_process >>= λ q.
          insert_blocked_current sem q
            (save_state q (update_cpu_time (advance (record k { word = word }))))
          >>= next)
        ≡ next (record (saved p k) { word = word; store = blocked.store })
  sleep_run word next e =
      let start : Kernel = record k { word = word } in
      ap
        (λ (j : Kernel).
          j.current_process >>= λ q. insert_blocked_current sem q (save_state q j) >>= next)
        (saved_current start p e)
      ∙ (ap (λ o. o >>= λ q. insert_blocked_current sem q (save_state q (charged p start)) >>= next)
            e
          ∙ ap (λ o. o >>= next) (insert_blocked_current-blocked word))

-- A semaphore without resources: 0, or negative as a word of 32 bits, the least value left out.
abbrev pub IsTaken : ℕ → Type 0
IsTaken w = (w ≡ 0) ⊎ ((2 ^ 31 < w) × (w < 2 ^ 32))

taken_negative : (w : ℕ) → IsTaken w → ltb (decr w) (2 ^ 31) ≡ false
taken_negative w (inl e) = rw e refl
taken_negative w (inr h) = let (a, b) = h in ground arith

-- Under the invariant of the active semaphore list, let the process `p` run, in no queue, let the
-- semaphore that it names be 0 or negative, but not the least `int`, let fewer than `MAXPROC`
-- processes wait there, and let a descriptor be free or some process wait there. Then `Passeren`
-- decrements the semaphore, saves the caller's state behind the call, charges its time, and goes
-- on in the scheduler with no process running, the caller waiting at the semaphore behind the
-- others, all other queues, processes and counts as they were, and the invariant holding again.
pub passeren-Suspends :
    (k : Kernel) {r : Rings} {js fs : List ℕ} {queue : ℕ → List ℕ}
    → IsAsl k.store r js fs queue
    → (p : ℕ) → k.current_process ≡ some p
    → r.role (p_list p) ≡ loose
    → length (waiting k.store js queue k.exception_state.reg_a1) < maxproc
    → (fs ≢ []) ⊎ (find_key k.store.s_key k.exception_state.reg_a1 js ≢ none)
    → IsTaken (k.word k.exception_state.reg_a1)
    → Suspends k r js queue k.exception_state.reg_a1 p k.soft_block_count
        (write k.word k.exception_state.reg_a1 (decr (k.word k.exception_state.reg_a1)))
        (passeren k)
unfolding passeren block_current
passeren-Suspends k v p e hp room able taken =
    let sem = k.exception_state.reg_a1 in
    let word = write k.word sem (decr (k.word sem)) in
    put_to_sleep-Suspends k v sem p hp room able k.soft_block_count word (passeren k) (
      rw (write_self k.word sem (decr (k.word sem)), taken_negative (k.word sem) taken)
        (sleep_run k v sem p hp room able word
          (λ i. scheduler (record i { current_process = none })) e))

-- Under the invariant of the active semaphore list, let the process `p` run, in no queue, let
-- fewer than `MAXPROC` processes wait at the semaphore of the device whose command register it
-- names, and let a descriptor be free or some process wait there. Then `DoIO` decrements the
-- semaphore, writes the command to the register, saves the caller's state behind the call, charges
-- its time, and goes on in the scheduler with no process running, one more process waiting for a
-- device, the caller waiting at the semaphore behind the others, all other queues and processes as
-- they were, and the invariant holding again.
pub do_io-Suspends :
    (m : Platform) (k : Kernel) {r : Rings} {js fs : List ℕ} {queue : ℕ → List ℕ}
    → IsAsl k.store r js fs queue
    → (p sem : ℕ) → sem ≡ device_semaphore m (device_index k.exception_state.reg_a1)
    → k.current_process ≡ some p
    → r.role (p_list p) ≡ loose
    → length (waiting k.store js queue sem) < maxproc
    → (fs ≢ []) ⊎ (find_key k.store.s_key sem js ≢ none)
    → Suspends k r js queue sem p
        (incr k.soft_block_count)
        (write
          (write k.word sem (decr (k.word sem)))
          k.exception_state.reg_a1
          k.exception_state.reg_a2)
        (do_io m k)
unfolding do_io
do_io-Suspends m k v p sem at e hp room able =
    let word = write k.word sem (decr (k.word sem)) in
    put_to_sleep-Suspends k v sem p hp room able (incr k.soft_block_count)
      (write word k.exception_state.reg_a1 k.exception_state.reg_a2) (do_io m k)
      (rw (sym at) (
        sleep_run k v sem p hp room able word
          (λ i. scheduler (record (write_word k.exception_state.reg_a1 k.exception_state.reg_a2 i) {
            soft_block_count = incr i.soft_block_count;
            current_process = none;
          }))
          e))

-- Under the invariant of the active semaphore list, let the process `p` run, in no queue, let
-- fewer than `MAXPROC` processes wait at the semaphore of the pseudo-clock, and let a descriptor
-- be free or some process wait there. Then `WaitForClock` decrements the semaphore, saves the
-- caller's state behind the call, charges its time, and goes on in the scheduler with no process
-- running, one more process waiting for a device, the caller waiting at the semaphore behind the
-- others, all other queues and processes as they were, and the invariant holding again.
pub wait_for_clock-Suspends :
    (m : Platform) (k : Kernel) {r : Rings} {js fs : List ℕ} {queue : ℕ → List ℕ}
    → IsAsl k.store r js fs queue
    → (p sem : ℕ) → sem ≡ device_semaphore m 48
    → k.current_process ≡ some p
    → r.role (p_list p) ≡ loose
    → length (waiting k.store js queue sem) < maxproc
    → (fs ≢ []) ⊎ (find_key k.store.s_key sem js ≢ none)
    → Suspends k r js queue sem p
        (incr k.soft_block_count)
        (write k.word sem (decr (k.word sem)))
        (wait_for_clock m k)
unfolding wait_for_clock
wait_for_clock-Suspends m k v p sem at e hp room able =
    let word = write k.word sem (decr (k.word sem)) in
    put_to_sleep-Suspends k v sem p hp room able (incr k.soft_block_count) word (wait_for_clock m k)
      (rw (sym at) (
        sleep_run k v sem p hp room able word
          (λ i.
            scheduler
              (record i { soft_block_count = incr i.soft_block_count; current_process = none }))
          e))
