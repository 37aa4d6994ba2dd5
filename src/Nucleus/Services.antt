-- ===== src/Nucleus/Services.antt =====
-- The services of phase2/syscalls.c that keep the set of processes, and the invariant of the whole
-- kernel.
use progetto_so.Base.{
  ℕ, ◌^◌, ◌≡◌, ◌≢◌, inl, refl, sym, ap, subst, ◌∙◌, Option, some, none, List, [], ◌∷◌, if_ind, ltb,
  leb, ◌||◌, ◌==◌, ◌>>=◌,
}
use progetto_so.ListX.{list_add_tail}
use progetto_so.Memory.{Store, p_list, ready_queue, with_links}
use progetto_so.Kernel.{
  Platform, Kernel, Outcome, incr, decr, with_store, update_cpu_time, scheduler,
}
use progetto_so.Asl.{remove_blocked}
use progetto_so.Terminate.{device_semaphore}
use progetto_so.Syscalls.Common.{advance, resume, save_state, write_word, insert_blocked_current}
use progetto_so.Syscalls.Semaphores.{
  block_current, passeren, wake, verhogen, do_io, wait_for_clock, device_index,
}
use progetto_so.Syscalls.Queries.{get_cpu_time, get_support_data, get_process_id, yield}
use progetto_so.Syscalls.Saved.{charged, saved, saved_current}
use progetto_so.Nucleus.{Holds, IsKernel, Keeps, running}
use progetto_so.Nucleus.Ready.{
  IsKernel-of, insert_proc_q-IsNucleus, list_add_tail-IsNucleus, scheduler-Keeps, resume-Keeps,
}
use progetto_so.Nucleus.Pcbs.{IsNucleus-set_pcb}
use progetto_so.Nucleus.Sleep.{insert_blocked-IsNucleus, Woken, remove_blocked-Woken}

pub saved-Holds : (k : Kernel) (p : ℕ) (hs : List ℕ) → Holds k hs → Holds (saved p k) hs
saved-Holds k p hs n =
    IsNucleus-set_pcb {s = (charged p k).store}
      (IsNucleus-set_pcb n p (record (k.store.pcb p) { p_time = _ }) refl refl) p
      (record ((charged p k).store.pcb p) { p_s = (advance k).exception_state }) refl refl

-- The caller goes to sleep at a semaphore, and the rest `next` of the service goes on without it.
pub sleep-Keeps :
    (k : Kernel) (p sem : ℕ) (next : Kernel → Outcome)
    → k.current_process ≡ some p
    → Holds k (p ∷ [])
    → sem ≢ 0
    → ((j : Kernel) → Holds j [] → Keeps (next j))
    → Keeps (
        (update_cpu_time (advance k)).current_process >>= λ q.
        insert_blocked_current sem q (save_state q (update_cpu_time (advance k))) >>= next)
unfolding insert_blocked_current
sleep-Keeps k p sem next e n ne rest =
    let (t, run, m) =
      insert_blocked-IsNucleus (saved p k).store k.process_count p sem []
        (saved-Holds k p (p ∷ []) n) ne in
    let path : ((update_cpu_time (advance k)).current_process >>= λ q.
    insert_blocked_current sem q (save_state q (update_cpu_time (advance k))) >>= next)
        ≡ next (with_store (saved p k) t) =
      ap
        (λ (j : Kernel).
          j.current_process >>= λ q. insert_blocked_current sem q (save_state q j) >>= next)
        (saved_current k p e)
      ∙ (ap (λ o. o >>= λ q. insert_blocked_current sem q (save_state q (charged p k)) >>= next) e
          ∙ ap (λ o. (o >>= λ (_, s). some (with_store (saved p k) s)) >>= next) run) in
    subst Keeps (sym path) (rest (with_store (saved p k) t) m)

pub current-Holds :
    (k : Kernel) (p : ℕ) → k.current_process ≡ some p → IsKernel k → Holds k (p ∷ [])
current-Holds k p e n = subst (λ c. Holds k (running c)) e n

module _ (k : Kernel) (p : ℕ) (e : k.current_process ≡ some p) (n : IsKernel k) where
  pub passeren-Keeps : k.exception_state.reg_a1 ≢ 0 → Keeps (passeren k)
  unfolding passeren block_current
  passeren-Keeps ne =
      let sem = k.exception_state.reg_a1 in
      let j = write_word sem (decr (k.word sem)) k in
      if_ind Keeps (ltb (j.word sem) (2 ^ 31)) (resume (advance j)) (block_current sem j)
        (resume-Keeps (advance j) p e n)
        (sleep-Keeps j p sem (λ i. scheduler (record i { current_process = none })) e
          (current-Holds k p e n) ne
          (λ i m. scheduler-Keeps (record i { current_process = none }) refl m))

  wake-Keeps :
      (j : Kernel)
      → j.current_process ≡ some p
      → Holds j (p ∷ [])
      → (o : Option (Option ℕ × Store)) → Woken j.store j.process_count (p ∷ []) o
      → Keeps (o >>= wake j)
  wake-Keeps j ej h none w = elim w [ ]
  wake-Keeps j ej h (some (none, s)) w =
      resume-Keeps (advance (with_store j s)) p ej
        (IsKernel-of (with_store j s) w refl (ap running ej) h)
  wake-Keeps j ej h (some (some q, s)) w =
      let (t, run, m) = insert_proc_q-IsNucleus s j.process_count q (p ∷ []) w in
      subst (λ o. Keeps (o >>= λ u. resume (advance (with_store j u)))) (sym run)
        (resume-Keeps (advance (with_store j (with_links s t))) p ej
          (IsKernel-of (with_store j (with_links s t)) refl refl (ap running ej) m))

  pub verhogen-Keeps : Keeps (verhogen k)
  unfolding verhogen
  verhogen-Keeps =
      let sem = k.exception_state.reg_a1 in
      let j = write_word sem (incr (k.word sem)) k in
      let h = current-Holds k p e n in
      if_ind Keeps ((j.word sem == 0) || leb (2 ^ 31) (j.word sem))
        (remove_blocked sem j.store >>= wake j) (resume (advance j))
        (wake-Keeps j e h (remove_blocked sem j.store)
          (remove_blocked-Woken j.store j.process_count sem (p ∷ []) h))
        (resume-Keeps (advance j) p e n)

  pub get_cpu_time-Keeps : Keeps (get_cpu_time k)
  unfolding get_cpu_time
  get_cpu_time-Keeps = rw e (
    IsNucleus-set_pcb (current-Holds k p e n) p (record (k.store.pcb p) { p_time = _ }) refl refl,
    (p, refl, inl refl),
  )

  pub get_support_data-Keeps : Keeps (get_support_data k)
  unfolding get_support_data
  get_support_data-Keeps = rw e (current-Holds k p e n, (p, refl, inl refl))

  pub get_process_id-Keeps : Keeps (get_process_id k)
  unfolding get_process_id
  get_process_id-Keeps = rw e (current-Holds k p e n, (p, refl, inl refl))

  pub yield-Keeps : Keeps (yield k)
  unfolding yield
  yield-Keeps =
      let rest : ℕ → Kernel → Outcome = λ q i. scheduler (record (save_state q i) {
        store =
            with_links (save_state q i).store
              (list_add_tail (p_list q) ready_queue (save_state q i).store.links);
        current_process = none;
      }) in
      let path : yield k ≡ rest p (charged p k) =
        ap (λ (j : Kernel). j.current_process >>= λ q. rest q j) (saved_current k p e)
        ∙ ap (λ o. o >>= λ q. rest q (charged p k)) e in
      subst Keeps (sym path) (
        scheduler-Keeps _ refl (
          list_add_tail-IsNucleus (saved p k).store k.process_count p []
            (saved-Holds k p (p ∷ []) (current-Holds k p e n))))

  module _ (m : Platform) where
    pub do_io-Keeps :
        device_semaphore m (device_index k.exception_state.reg_a1) ≢ 0 → Keeps (do_io m k)
    unfolding do_io
    do_io-Keeps ne =
        let sem = device_semaphore m (device_index k.exception_state.reg_a1) in
        sleep-Keeps (write_word sem (decr (k.word sem)) k) p sem
          (λ i. scheduler (record (write_word k.exception_state.reg_a1 k.exception_state.reg_a2 i) {
            soft_block_count = incr i.soft_block_count;
            current_process = none;
          }))
          e (current-Holds k p e n) ne (λ i h. scheduler-Keeps _ refl h)

    pub wait_for_clock-Keeps : device_semaphore m 48 ≢ 0 → Keeps (wait_for_clock m k)
    unfolding wait_for_clock
    wait_for_clock-Keeps ne =
        let sem = device_semaphore m 48 in
        sleep-Keeps (write_word sem (decr (k.word sem)) k) p sem
          (λ i.
            scheduler
              (record i { soft_block_count = incr i.soft_block_count; current_process = none }))
          e (current-Holds k p e n) ne (λ i h. scheduler-Keeps _ refl h)
