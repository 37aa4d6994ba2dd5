-- ===== src/Nucleus/Ready.antt =====
-- The ready queue of the whole kernel: the functions of phase1/pcb.c on it, and `scheduler`.
use mathlib.Core.List.{append-nil, map-append}
use progetto_so.Base.{
  ℕ, ◌+◌, ◌≤◌, ◌≡◌, inl, inr, refl, sym, ap, subst, ◌∙◌, some, none, List, [], ◌∷◌, ◌++◌, map,
  arith, length, Distinct-length,
}
use progetto_so.ListX.{Links, list_add_tail}
use progetto_so.ListX.Rings.{Rings, Linked, take_out, put}
use progetto_so.ListX.Operations.{Linked-list_add_tail}
use progetto_so.Memory.{maxproc, Store, p_list, ready_queue, with_links}
use progetto_so.Pcb.{insert_proc_q}
use progetto_so.Pcb.Insert.{prio, ahead, behind, ahead-behind, insert_proc_q-lands}
use progetto_so.Pcb.Queues.{empty_proc_q-is_empty}
use progetto_so.Kernel.{Kernel, scheduler, idle}
use progetto_so.Syscalls.Common.{resume}
use progetto_so.Kernel.Schedule.{scheduler-dispatch}
use progetto_so.Nucleus.{View, IsStore, IsNucleus, Holds, IsKernel, NoneReady, Fits, Keeps, running}
use progetto_so.Nucleus.Moves.{member-Distinct, take_ready-IsStore, put_ready-IsStore}

-- At most all PCBs are ready.
pub ready_small :
    {s : Store} {r : Rings} {v : View} {hs : List ℕ} → IsStore s r v hs → length v.ready ≤ maxproc
ready_small {s} {r} {v} {hs} i =
    Distinct-length maxproc v.ready
      (member-Distinct r ready_queue v.ready s.links i.asl.linked i.queues.ready_head
        i.queues.ready_entries)
      i.placed.small_ready

-- `insertProcQ` puts the process in hand into the ready queue.
pub insert_proc_q-IsStore :
    (s : Store) (r : Rings) (v : View) (p : ℕ) (hs : List ℕ)
    → IsStore s r v (p ∷ hs)
    → let us = ahead (prio s) p v.ready in
      let ws = behind (prio s) p v.ready in
      (t : Links) × (insert_proc_q ready_queue p s ≡ some (with_links s t))
      × IsStore
          (with_links s t)
          (put (p_list p) ready_queue (map p_list (us ++ p ∷ ws)) r)
          (record v { ready = us ++ p ∷ ws })
          (hs)
insert_proc_q-IsStore s r v p hs i =
    let (t, run, l) =
      insert_proc_q-lands s r ready_queue p v.ready i.asl.linked i.queues.ready_head
        i.queues.held_loose.0 i.queues.ready_entries (ready_small i) in
    let us = ahead (prio s) p v.ready in
    let ws = behind (prio s) p v.ready in
    let j : IsStore s r (record v { ready = us ++ ws }) (p ∷ hs) =
      subst (λ xs. IsStore s r (record v { ready = xs }) (p ∷ hs))
        (sym (ahead-behind (prio s) p v.ready)) i in
    (t, run, put_ready-IsStore v p hs us ws j t l)

pub insert_proc_q-IsNucleus :
    (s : Store) (count p : ℕ) (hs : List ℕ)
    → IsNucleus s count (p ∷ hs)
    → (t : Links) × (insert_proc_q ready_queue p s ≡ some (with_links s t))
      × IsNucleus (with_links s t) count hs
insert_proc_q-IsNucleus s count p hs n =
    let (t, run, i) = insert_proc_q-IsStore s n.rings n.view p hs n.store in
    (t, run, record { rings = _; view = _; store = i; counted = n.counted })

-- `list_add_tail` of the process in hand to the ready queue, as `Yield` does it.
pub list_add_tail-IsNucleus :
    (s : Store) (count p : ℕ) (hs : List ℕ)
    → IsNucleus s count (p ∷ hs)
    → IsNucleus (with_links s (list_add_tail (p_list p) ready_queue s.links)) count hs
list_add_tail-IsNucleus s count p hs n =
    let v = n.view in
    let i = n.store in
    let j : IsStore s n.rings (record v { ready = v.ready ++ [] }) (p ∷ hs) =
      subst (λ xs. IsStore s n.rings (record v { ready = xs }) (p ∷ hs)) (sym (append-nil v.ready))
        i in
    let l =
      Linked-list_add_tail s.links n.rings i.asl.linked ready_queue i.queues.ready_head (p_list p)
        i.queues.held_loose.0 in
    let whole =
      ap (λ xs. xs ++ p_list p ∷ []) i.queues.ready_entries
      ∙ sym (map-append p_list v.ready (p ∷ [])) in
    record {
      rings = _;
      view = _;
      store = put_ready-IsStore v p hs v.ready [] j (list_add_tail (p_list p) ready_queue s.links) (
          subst
            (λ xs.
              Linked (list_add_tail (p_list p) ready_queue s.links)
                (put (p_list p) ready_queue xs n.rings))
            whole l);
      counted = n.counted;
    }

-- The first process of the ready queue comes into the hand.
pub remove_proc_q-IsNucleus :
    (s : Store) (count p : ℕ) (ps hs : List ℕ) (r : Rings) (v : View)
    → IsStore s r (record v { ready = p ∷ ps }) (hs)
    → count + length v.free ≡ maxproc
    → (t : Links) → Linked t (take_out (p_list p) ready_queue (map p_list ps) r)
    → IsNucleus (with_links s t) count (p ∷ hs)
remove_proc_q-IsNucleus s count p ps hs r v i c t l = record {
  rings = _;
  view = _;
  store = take_ready-IsStore v p hs [] ps i t l;
  counted = c;
}

-- The invariant of the kernel in terms of the parts that it depends on.
pub IsKernel-of :
    (k : Kernel) {s : Store} {count : ℕ} {hs : List ℕ}
    → k.store ≡ s
    → k.process_count ≡ count
    → running k.current_process ≡ hs
    → IsNucleus s count hs
    → IsKernel k
IsKernel-of k {s} {count} {hs} es ec eh n =
    subst (λ x. IsNucleus k.store k.process_count x) (sym eh)
      (subst (λ x. IsNucleus k.store x hs) (sym ec) (subst (λ x. IsNucleus x count hs) (sym es) n))

idle_same :
    (k : Kernel)
    → k.current_process ≡ none
    → ((idle k).1.store ≡ k.store)
      × ((idle k).1.process_count ≡ k.process_count)
      × ((idle k).1.current_process ≡ none)
unfolding idle
idle_same k e = ground arith

-- With nothing ready the exit is the one that the counts ask for.
idle-Fits :
    (k : Kernel)
    → NoneReady k
    → k.current_process ≡ none
    → k.process_count ≤ maxproc
    → Fits (idle k).0 (idle k).1
unfolding idle
idle-Fits k d e le = ground arith

-- The processor goes back to the running process.
pub resume-Keeps : (k : Kernel) (p : ℕ) → k.current_process ≡ some p → IsKernel k → Keeps (resume k)
resume-Keeps k p e n = (n, (p, e, inl refl))

-- If no process is in hand, and none is running or one is ready, the scheduler keeps the invariant
-- of the kernel, and its exit fits.
pub scheduler-Keeps_of :
    (k : Kernel) (n : Holds k [])
    → (n.view.ready ≡ [] → k.current_process ≡ none)
    → Keeps (scheduler k)
unfolding scheduler
scheduler-Keeps_of k n free = at n.view.ready refl
  where
    at : (ps : List ℕ) → n.view.ready ≡ ps → Keeps (scheduler k)
    at [] d =
        rw
          (empty_proc_q-is_empty k.store n.rings ready_queue n.store.asl.linked
            n.store.queues.ready_head [] (n.store.queues.ready_entries ∙ ap (map p_list) d))
          (let (s, c, h) = idle_same k (free d) in
            (
              IsKernel-of (idle k).1 s c (ap running h) n,
              idle-Fits k
                  (empty_proc_q-is_empty k.store n.rings ready_queue n.store.asl.linked
                    n.store.queues.ready_head [] (n.store.queues.ready_entries ∙ ap (map p_list) d))
                  (free d) (let c = n.counted in omega arith),
            ))
    at (p ∷ ps) d =
        let (t, run, l) =
          scheduler-dispatch k n.rings n.store.asl.linked n.store.queues.ready_head p ps
            (n.store.queues.ready_entries ∙ ap (map p_list) d) in
        let i : IsStore k.store n.rings (record (n.view) { ready = p ∷ ps }) [] =
          subst (λ xs. IsStore k.store n.rings (record (n.view) { ready = xs }) []) d n.store in
        subst Keeps (sym run) (
          remove_proc_q-IsNucleus k.store k.process_count p ps [] n.rings n.view i n.counted t l,
          (p, refl, inr refl),
        )

pub scheduler-Keeps : (k : Kernel) → k.current_process ≡ none → Holds k [] → Keeps (scheduler k)
scheduler-Keeps k e n = scheduler-Keeps_of k n (λ _. e)
