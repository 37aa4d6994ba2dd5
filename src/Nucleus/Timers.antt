-- ===== src/Nucleus/Timers.antt =====
-- The timers of phase2/interrupts.c, and the invariant of the whole kernel.
use progetto_so.Base.{
  eq_cases, true, ℕ, zero, suc, ◌+◌, ◌-◌, ◌%◌, ◌^◌, ◌<◌, ◌≤◌, ◌≡◌, ◌≢◌, ◌⊎◌, inl, inr, refl, sym,
  ap, subst, ◌∙◌, Option, some, none, List, [], ◌∷◌, ◌++◌, write_self, Bool-cases, leb, ◌>>=◌,
  arith,
}
use progetto_so.Memory.{Store, ready_queue, with_links}
use progetto_so.Pcb.{insert_proc_q}
use progetto_so.Kernel.{
  Platform, Kernel, incr, decr, charge, with_store, timeslice, psecond, update_cpu_time, scheduler,
}
use progetto_so.Asl.{remove_blocked}
use progetto_so.Terminate.{device_semaphore}
use progetto_so.Syscalls.Common.{resume, save_state, write_word}
use progetto_so.Interrupts.{
  resume_or_schedule, preempt, handle_plt, ready_unblocked, unblock_all, handle_pseudo_clock,
}
use progetto_so.Nucleus.{IsNucleus, Holds, IsKernel, Keeps, running}
use progetto_so.Nucleus.Ready.{
  IsKernel-of, insert_proc_q-IsStore, insert_proc_q-IsNucleus, scheduler-Keeps_of, scheduler-Keeps,
  resume-Keeps,
}
use progetto_so.Nucleus.Pcbs.{IsNucleus-set_pcb}
use progetto_so.Nucleus.Sleep.{Woken, remove_blocked-Woken}

pub update_cpu_time-Holds :
    (k : Kernel) (hs : List ℕ)
    → Holds k hs
    → Holds (update_cpu_time k) hs × ((update_cpu_time k).current_process ≡ k.current_process)
unfolding update_cpu_time
update_cpu_time-Holds k hs n = at k.current_process
  where
    now : ℕ
    now = k.clock k.readings

    at :
        (o : Option ℕ)
        → Holds
            (elim o [
              | some p ↦ record (charge p now k) { p_start = now; readings = k.readings + 1 }
              | none ↦ record k { p_start = now; readings = k.readings + 1 }
            ])
            hs
          × ((elim o as (λ _. Kernel) [
            | some p ↦ record (charge p now k) { p_start = now; readings = k.readings + 1 }
            | none ↦ record k { p_start = now; readings = k.readings + 1 }
          ]).current_process
              ≡ k.current_process)
    at none = (n, refl)
    at (some p) = (IsNucleus-set_pcb n p (record (k.store.pcb p) { p_time = _ }) refl refl, refl)

pub update_cpu_time-IsKernel : (k : Kernel) → IsKernel k → IsKernel (update_cpu_time k)
update_cpu_time-IsKernel k n =
    let (h, e) = update_cpu_time-Holds k (running k.current_process) n in
    IsKernel-of (update_cpu_time k) refl refl (ap running e) h

pub resume_or_schedule-Keeps : (k : Kernel) → IsKernel k → Keeps (resume_or_schedule k)
resume_or_schedule-Keeps k n = at k.current_process refl
  where
    at :
        (o : Option ℕ)
        → k.current_process ≡ o
        → Keeps (elim o [ none ↦ scheduler k | some _ ↦ resume k ])
    at none e = scheduler-Keeps k e (subst (λ c. Holds k (running c)) e n)
    at (some p) e = resume-Keeps k p e n

snoc_ne : (us : List ℕ) (p : ℕ) (ws : List ℕ) → us ++ p ∷ ws ≢ []
snoc_ne [] p ws e = cc
snoc_ne (u ∷ us) p ws e = cc

-- The interrupted process goes back to the ready queue, so that one is ready.
preempt-Keeps : (k : Kernel) → IsKernel k → Keeps (preempt k >>= scheduler)
unfolding preempt
preempt-Keeps k n = at k.current_process refl
  where
    at :
        (o : Option ℕ)
        → k.current_process ≡ o
        → Keeps (
            (elim o as (λ _. Option Kernel) [
              | none ↦ some k
              | some p ↦
                  (let j = save_state p k in
                    insert_proc_q ready_queue p j.store >>= λ s. some (with_store j s))
            ])
            >>= scheduler)
    at none e = scheduler-Keeps k e (subst (λ c. Holds k (running c)) e n)
    at (some p) e =
        let j = save_state p k in
        let m : Holds j (p ∷ []) =
          IsNucleus-set_pcb (subst (λ c. Holds k (running c)) e n) p
            (record (k.store.pcb p) { p_s = k.exception_state }) refl refl in
        let (t, run, i) = insert_proc_q-IsStore j.store m.rings m.view p [] m.store in
        subst (λ o. Keeps ((o >>= λ s. some (with_store j s)) >>= scheduler)) (sym run)
          (scheduler-Keeps_of (with_store j (with_links (j.store) t))
            (record { rings = _; view = _; store = i; counted = m.counted })
            (λ d. absurd (snoc_ne _ p _ d)))

-- The end of a time slice keeps the invariant and ends with a fitting exit.
pub handle_plt-Keeps : (k : Kernel) → IsKernel k → Keeps (handle_plt k)
unfolding handle_plt
handle_plt-Keeps k n =
    preempt-Keeps (update_cpu_time (record k { timer = timeslice }))
      (update_cpu_time-IsKernel (record k { timer = timeslice }) n)

-- The number of rounds is enough: the word gets to 0 within them, or it is not negative.
Enough : ℕ → ℕ → Type 0
Enough n w = (2 ^ 32 + 1 ≤ n + w % 2 ^ 32) ⊎ ((w < 2 ^ 31) × (1 ≤ n))

Enough-start : (w : ℕ) → Enough (2 ^ 32 + 1 - w % 2 ^ 32) w
unfolding Enough
Enough-start w = inl (omega arith)

Enough-not_zero : (w : ℕ) → ¬ Enough 0 w
unfolding Enough
Enough-not_zero w (inl h) = omega arith
Enough-not_zero w (inr h) = omega arith

Enough-next : (n w : ℕ) → 2 ^ 31 ≤ w → Enough (suc n) w → Enough n (incr w)
unfolding Enough
Enough-next n w h (inr (l, _)) = omega arith
Enough-next n w h (inl e) = elim (eq_cases (w % 2 ^ 32) (2 ^ 32 - 1)) [
  | inl d ↦ inr (omega arith)
  | inr d ↦ inl (omega arith)
]

true_le : (a b : ℕ) → leb a b ≡ true → a ≤ b
true_le a b h = ground arith

-- A loop of the handler leaves these processes in hand, and the running process.
Unblocks : List ℕ → Option ℕ → Option Kernel → Type 0
Unblocks hs cur none = ⊥
Unblocks hs cur (some j) = Holds j hs × (j.current_process ≡ cur)

-- A process that wakes up goes to the ready queue.
pub ready_unblocked-Holds :
    (k : Kernel) (s : Store) (p : ℕ) (hs : List ℕ)
    → IsNucleus s k.process_count (p ∷ hs)
    → (j : Kernel) × (ready_unblocked k (some p, s) ≡ some j)
      × Holds j hs
      × (j.current_process ≡ k.current_process)
      × (j.word ≡ k.word)
ready_unblocked-Holds k s p hs w =
    let (t, run, m) = insert_proc_q-IsNucleus s k.process_count p hs w in
    (
      _,
      ap (λ o. o >>= λ u. some (record k { store = u; soft_block_count = decr k.soft_block_count }))
          run,
      m,
      refl,
      refl,
    )

ready_unblocked-Woken :
    (k : Kernel) (hs : List ℕ) (o : Option (Option ℕ × Store))
    → Holds k hs
    → Woken k.store k.process_count hs o
    → (j : Kernel) × ((o >>= ready_unblocked k) ≡ some j)
      × Holds j hs
      × (j.current_process ≡ k.current_process)
      × (j.word ≡ k.word)
ready_unblocked-Woken k hs none h w = elim w [ ]
ready_unblocked-Woken k hs (some (none, s)) h w =
    (with_store k s, refl, subst (λ x. IsNucleus x k.process_count hs) (sym w) h, refl, refl)
ready_unblocked-Woken k hs (some (some p, s)) h w = ready_unblocked-Holds k s p hs w

-- The loop of the pseudo-clock ends within its rounds.
unblock_all-Unblocks :
    (n sem : ℕ) (k : Kernel) (hs : List ℕ)
    → Holds k hs
    → Enough n (k.word sem)
    → Unblocks hs k.current_process (unblock_all n sem k)
unfolding unblock_all Unblocks
unblock_all-Unblocks zero sem k hs h e = absurd (Enough-not_zero (k.word sem) e)
unblock_all-Unblocks (suc n) sem k hs h e = elim (Bool-cases (leb (2 ^ 31) (k.word sem))) [
  | inl t ↦
      (let j = write_word sem (incr (k.word sem)) k in
        let (i, run, m, cur, word) =
          ready_unblocked-Woken j hs (remove_blocked sem j.store) h
            (remove_blocked-Woken j.store j.process_count sem hs h) in
        let value : incr (k.word sem) ≡ i.word sem =
          sym (ap (λ f. f sem) word ∙ write_self k.word sem (incr (k.word sem))) in
        let rest = unblock_all-Unblocks n sem i hs m (
          subst (Enough n) value
            (Enough-next n (k.word sem) (true_le (2 ^ 31) (k.word sem) t) e)) in
        rw t (
          subst (λ o. Unblocks hs k.current_process (o >>= λ x. unblock_all n sem x)) (sym run)
            (subst (λ c. Unblocks hs c (unblock_all n sem i)) cur rest)))
  | inr t ↦ rw t (h, refl)
]

-- The handler of the pseudo-clock keeps the invariant and ends with a fitting exit.
pub handle_pseudo_clock-Keeps :
    (m : Platform) (k : Kernel) → IsKernel k → Keeps (handle_pseudo_clock m k)
unfolding handle_pseudo_clock Unblocks
handle_pseudo_clock-Keeps m k n =
    let j = record k { interval_timer = psecond } in
    let sem = device_semaphore m 48 in
    at (unblock_all (2 ^ 32 + 1 - j.word sem % 2 ^ 32) sem j) (
      unblock_all-Unblocks (2 ^ 32 + 1 - j.word sem % 2 ^ 32) sem j (running k.current_process) n
        (Enough-start (j.word sem)))
  where
    at :
        (o : Option Kernel)
        → Unblocks (running k.current_process) k.current_process o
        → Keeps (o >>= λ i. resume_or_schedule (update_cpu_time i))
    at none u = elim u [ ]
    at (some i) (h, c) =
        resume_or_schedule-Keeps (update_cpu_time i)
          (update_cpu_time-IsKernel i (IsKernel-of i refl refl (ap running c) h))
