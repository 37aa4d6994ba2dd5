-- ===== src/Nucleus/Drained.antt =====
-- The loop of `handlePseudoClock` of phase2/interrupts.c: who waits at the semaphore becomes ready.
use progetto_so.Base.{
  ℕ, zero, suc, ◌+◌, ◌-◌, ◌%◌, ◌^◌, ◌<◌, ◌≤◌, ◌≡◌, ◌≢◌, inl, inr, refl, sym, ap, subst, ◌∙◌, Option,
  some, none, List, [], ◌∷◌, write_self, true, if◌then◌else◌, leb, ◌>>=◌, arith, In, In-insert,
  In-right, length, ==_refl, ==_ne,
}
use progetto_so.Memory.{maxproc, Store, with_links}
use progetto_so.ListX.Rings.{Rings}
use progetto_so.Pcb.Insert.{ahead, behind, ahead-behind, prio}
use progetto_so.Kernel.{Kernel, incr, decr}
use progetto_so.Asl.{remove_blocked}
use progetto_so.Asl.Inv.{IsAsl, IsQueue, waiting, find_key, find_key-some, queue_at}
use progetto_so.Asl.Remove.{Unblocked, remove_blocked-Unblocked}
use progetto_so.Syscalls.Common.{write_word}
use progetto_so.Interrupts.{ready_unblocked, unblock_all}
use progetto_so.Nucleus.{Holds}
use progetto_so.Nucleus.Ready.{insert_proc_q-IsStore}
use progetto_so.Nucleus.Sleep.{Left-IsStore}

-- There are at most as many as PCBs.
waiting_small :
    {s : Store} {r : Rings} {js fs : List ℕ} {queue : ℕ → List ℕ}
    → IsAsl s r js fs queue
    → (k : ℕ) → length (waiting s js queue k) ≤ maxproc
waiting_small {s} {r} {js} {queue = queue} a k = at (find_key s.s_key k js) refl
  where
    at : (o : Option ℕ) → find_key s.s_key k js ≡ o → length (queue_at queue o) ≤ maxproc
    at none e = omega arith
    at (some j) e = (find_key-some s.s_key k (λ x. IsQueue s r x (queue x)) js j e a.queues).1.small

-- The loop returns, all of `ps`, which waited at `sem`, are ready, and nobody waits there.
pub record Drained (k : Kernel) (hs : List ℕ) (n : Holds k hs) (sem : ℕ) (ps : List ℕ)
    (o : Option Kernel) : Type 0 where
  pub kernel : Kernel
  pub outcome : o ≡ some kernel
  pub keeps : Holds kernel hs
  pub nobody : waiting kernel.store keeps.view.js keeps.view.queue sem ≡ []
  pub value : kernel.word sem ≡ 0
  pub woken : (x : ℕ) → In x ps → In x keeps.view.ready
  pub still_ready : (x : ℕ) → In x n.view.ready → In x keeps.view.ready
  pub others :
      (i : ℕ)
      → i ≢ sem
      → waiting kernel.store keeps.view.js keeps.view.queue i
        ≡ waiting k.store n.view.js n.view.queue i
  pub blocked : (kernel.soft_block_count + length ps) % 2 ^ 32 ≡ k.soft_block_count % 2 ^ 32
  pub current : kernel.current_process ≡ k.current_process

-- One process is woken.
record Round (k : Kernel) (hs : List ℕ) (n : Holds k hs) (sem p : ℕ) (ps : List ℕ)
    (o : Option Kernel) : Type 0 where
  kernel : Kernel
  outcome : o ≡ some kernel
  keeps : Holds kernel hs
  rest : waiting kernel.store keeps.view.js keeps.view.queue sem ≡ ps
  word : kernel.word ≡ k.word
  woken : In p keeps.view.ready
  still_ready : (x : ℕ) → In x n.view.ready → In x keeps.view.ready
  others :
      (i : ℕ)
      → i ≢ sem
      → waiting kernel.store keeps.view.js keeps.view.queue i
        ≡ waiting k.store n.view.js n.view.queue i
  blocked : kernel.soft_block_count ≡ decr k.soft_block_count
  current : kernel.current_process ≡ k.current_process

ready_unblocked-Round :
    (k : Kernel) (hs : List ℕ) (n : Holds k hs) (sem p : ℕ) (ps : List ℕ)
    → waiting k.store n.view.js n.view.queue sem ≡ p ∷ ps
    → Round k hs n sem p ps (remove_blocked sem k.store >>= ready_unblocked k)
ready_unblocked-Round k hs n sem p ps e =
    let (t, gone, l) =
      subst (λ xs. Unblocked n.store.asl sem xs (remove_blocked sem k.store)) e
        (remove_blocked-Unblocked n.store.asl sem) in
    let v = record (n.view) { js = l.active; fs = l.free; queue = l.queues } in
    let (u, put, i) =
      insert_proc_q-IsStore t l.rings v p hs (Left-IsStore sem p [] ps t n.store e l) in
    let us = ahead (prio t) p n.view.ready in
    let ws = behind (prio t) p n.view.ready in
    record {
      kernel = record k { store = with_links t u; soft_block_count = decr k.soft_block_count };
      outcome =
          ap (λ o. o >>= ready_unblocked k) gone
          ∙ ap
              (λ o. o >>= λ x.
                some (record k { store = x; soft_block_count = decr k.soft_block_count }))
              put;
      keeps = record { rings = _; view = _; store = i; counted = n.counted };
      rest =
          l.waits sem
          ∙ ap (λ b. if b then ps else waiting k.store n.view.js n.view.queue sem) (==_refl sem);
      word = refl;
      woken = In-right p us (p ∷ ws) (inl refl);
      still_ready =
          λ x m. In-insert x p us ws (subst (In x) (sym (ahead-behind (prio t) p n.view.ready)) m);
      others = λ j ne.
          l.waits j
          ∙ ap (λ b. if b then ps else waiting k.store n.view.js n.view.queue j) (==_ne j sem ne);
      blocked = refl;
      current = refl;
    }

-- The value of the semaphore that `n` processes wait at.
IsDebt : ℕ → ℕ → Type 0
IsDebt w n = (w < 2 ^ 32) × ((w + n) % 2 ^ 32 ≡ 0) × (n ≤ maxproc)

unblock_all-Drained_of :
    (ps : List ℕ) (rounds sem : ℕ) (k : Kernel) (hs : List ℕ) (n : Holds k hs)
    → waiting k.store n.view.js n.view.queue sem ≡ ps
    → IsDebt (k.word sem) (length ps)
    → length ps < rounds
    → Drained k hs n sem ps (unblock_all rounds sem k)
unfolding unblock_all IsDebt
unblock_all-Drained_of [] zero sem k hs n e d lt = absurd (omega arith)
unblock_all-Drained_of (p ∷ ps) zero sem k hs n e d lt = absurd (omega arith)
unblock_all-Drained_of [] (suc rounds) sem k hs n e d lt =
    let w : k.word sem ≡ 0 = (let a = d.0 in let b = d.1 in omega arith) in
    rw w (record {
      kernel = k;
      outcome = refl;
      keeps = n;
      nobody = e;
      value = w;
      woken = λ x m. elim m [ ];
      still_ready = λ x m. m;
      others = λ i _. refl;
      blocked = omega arith;
      current = refl;
    })
unblock_all-Drained_of (p ∷ ps) (suc rounds) sem k hs n e d lt =
    let (a, b, c) = d in
    let large : leb (2 ^ 31) (k.word sem) ≡ true = ground arith in
    let j = write_word sem (incr (k.word sem)) k in
    let first = ready_unblocked-Round j hs n sem p ps e in
    let now : first.kernel.word sem ≡ incr (k.word sem) =
      ap (λ f. f sem) first.word ∙ write_self k.word sem (incr (k.word sem)) in
    let rest =
      unblock_all-Drained_of ps rounds sem first.kernel hs first.keeps first.rest
        (subst (λ w. IsDebt w (length ps)) (sym now) (omega arith, omega arith, omega arith))
        (omega arith) in
    let soft = first.blocked in
    let softs = rest.blocked in
    rw large (
      subst (λ o. Drained k hs n sem (p ∷ ps) (o >>= λ i. unblock_all rounds sem i))
        (sym first.outcome)
        (record {
          kernel = rest.kernel;
          outcome = rest.outcome;
          keeps = rest.keeps;
          nobody = rest.nobody;
          value = rest.value;
          woken = λ x m. elim m [
            | inl h ↦
                subst (λ y. In y rest.keeps.view.ready) (sym h) (rest.still_ready p first.woken)
            | inr t ↦ rest.woken x t
          ];
          still_ready = λ x m. rest.still_ready x (first.still_ready x m);
          others = λ i ne. rest.others i ne ∙ first.others i ne;
          blocked = omega arith;
          current = rest.current ∙ first.current;
        }))

-- Let the invariant of the whole kernel hold, with the processes `hs` in hand, and let the value of
-- the semaphore `sem`, as a signed word, be minus the number of the processes that wait there. Then
-- the loop of `handlePseudoClock` returns, in the rounds that the handler gives it: all that waited
-- at `sem` are ready, nobody waits there and its value is 0, the processes at other semaphores wait
-- on and the ready ones are ready, the count of the soft-blocked processes is down by the number of
-- those woken, modulo 2 ^ 32, the running process is the same, and the invariant holds.
pub unblock_all-Drained :
    (sem : ℕ) (k : Kernel) (hs : List ℕ) (n : Holds k hs)
    → k.word sem < 2 ^ 32
    → (k.word sem + length (waiting k.store n.view.js n.view.queue sem)) % 2 ^ 32 ≡ 0
    → Drained k hs n sem
        (waiting k.store n.view.js n.view.queue sem)
        (unblock_all (2 ^ 32 + 1 - k.word sem % 2 ^ 32) sem k)
unfolding IsDebt
unblock_all-Drained sem k hs n small debt =
    let few = waiting_small n.store.asl sem in
    unblock_all-Drained_of (waiting k.store n.view.js n.view.queue sem)
      (2 ^ 32 + 1 - k.word sem % 2 ^ 32) sem k hs n refl (small, debt, few) (omega arith)
