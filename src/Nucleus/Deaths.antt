-- ===== src/Nucleus/Deaths.antt =====
-- The end of one process in phase2/syscalls.c, and the invariant of the whole kernel.
use progetto_so.Base.{
  ℕ, ◌<◌, ◌≤◌, ◌≡◌, ◌≢◌, refl, sym, ap, subst, ◌∙◌, inr, Option, none, some, List, [], ◌∷◌, ◌++◌,
  map, arith, Fresh, In, In-split, not-In, All-In, length, Distinct-length_lt, write_self, write_ne,
}
use progetto_so.ListX.{Links}
use progetto_so.ListX.Rings.{Rings, Linked, in_ring, put}
use progetto_so.Memory.{maxproc, Pcb, Store, p_list, ready_queue, pcb_free_h, with_links}
use progetto_so.Pcb.{free_pcb, out_proc_q}
use progetto_so.Pcb.Alloc.{free_pcb-Linked}
use progetto_so.Pcb.Queues.{out_proc_q-Leaves}
use progetto_so.Asl.{out_blocked}
use progetto_so.Asl.Inv.{IsAsl, IsQueue, waiting, find_key, find_key-some, queue_at, some-ne-none}
use progetto_so.Asl.Agree.{IsAsl-agree}
use progetto_so.Asl.Remove.{out_blocked-Left}
use progetto_so.Nucleus.{IsFamily, View, IsStore}
use progetto_so.Nucleus.Places.{IsPlaced-dead}
use progetto_so.Nucleus.Moves.{
  IsFamily-same, moved-Agrees, moved-SameTree, moved_loose, member-Distinct, take_ready-IsStore,
}
use progetto_so.Nucleus.Ready.{ready_small}
use progetto_so.Nucleus.Sleep.{Left-IsStore}

-- A process in hand that has no parent and no children becomes free.
module _ {s : Store} {r : Rings} {v : View} {hs : List ℕ} (p : ℕ) (i : IsStore s r v (p ∷ hs))
    (root : (s.pcb p).p_parent ≡ none) (leaf : v.children p ≡ []) where
  abbrev dead_rings : Rings
  dead_rings = put (p_list p) pcb_free_h (map p_list (p ∷ v.free)) r

  -- Neither a parent nor a child is free.
  freed_IsFamily : IsFamily s r (p ∷ v.free) v.children v.rank
  freed_IsFamily =
      let f = i.family in
      record {
        tree = f.tree;
        apart = f.apart;
        heads = λ x lt fresh. f.heads x lt fresh.1;
        lists = λ x lt fresh. f.lists x lt fresh.1;
        registered = f.registered;
        alive = λ c x e.
            let (a, b, g, h) = f.alive c x e in
            (
              a,
              b,
              ((λ d. some-ne-none (sym e ∙ (ap (λ y. (s.pcb y).p_parent) d ∙ root))), g),
              (
                (λ d. not-In c [] tt (subst (In c) (ap v.children d ∙ leaf) (f.registered c x e))),
                h,
              ),
            );
        ranked = f.ranked;
      }

  pub free_pcb-IsStore : IsStore (free_pcb p s) dead_rings (record v { free = p ∷ v.free }) hs
  unfolding free_pcb
  free_pcb-IsStore =
      let q = i.queues in
      let l : Linked (free_pcb p s).links dead_rings =
        subst (λ xs. Linked (free_pcb p s).links (put (p_list p) pcb_free_h xs r))
          (ap (λ xs. p_list p ∷ xs) q.free_entries)
          (free_pcb-Linked s r p i.asl.linked q.free_head q.held_loose.0) in
      let xs = map p_list (p ∷ v.free) in
      record {
        asl =
            IsAsl-agree i.asl _ _ l
              (moved-Agrees r p pcb_free_h (in_ring pcb_free_h) xs (inr refl));
        semds = i.semds;
        queues = record {
          ready_head =
              write_ne r.role (p_list p) (in_ring pcb_free_h) ready_queue (omega arith)
              ∙ q.ready_head;
          ready_entries = write_ne r.list pcb_free_h xs ready_queue (omega arith) ∙ q.ready_entries;
          free_head =
              write_ne r.role (p_list p) (in_ring pcb_free_h) pcb_free_h (omega arith)
              ∙ q.free_head;
          free_entries = write_self r.list pcb_free_h xs;
          held_loose =
              moved_loose r p pcb_free_h (in_ring pcb_free_h) xs hs q.held_distinct.0
                q.held_loose.1;
          held_distinct = q.held_distinct.1;
        };
        placed = IsPlaced-dead p i.placed;
        family =
            IsFamily-same
              (moved-SameTree r p pcb_free_h (in_ring pcb_free_h) xs (inr refl) s (free_pcb p s)
                (λ _. refl))
              freed_IsFamily;
      }

-- While a process is in hand, not all PCBs are free.
pub free_short :
    {s : Store} {r : Rings} {v : View} {hs : List ℕ} (p : ℕ)
    → IsStore s r v (p ∷ hs)
    → Fresh p v.free
    → length v.free < maxproc
free_short {s} {r} {v} p i fresh =
    Distinct-length_lt maxproc p v.free
      (member-Distinct r pcb_free_h v.free s.links i.asl.linked i.queues.free_head
        i.queues.free_entries)
      i.placed.small_free i.placed.small_held.0 fresh

-- What holds of the PCB `p` and of the store at the moment when it is freed.
pub record Dying (s : Store) (v : View) (hs : List ℕ) (p : ℕ) (t : Store) : Type 0 where
  pub rings : Rings
  pub view : View
  pub store : IsStore t rings view (p ∷ hs)
  pub same_free : view.free ≡ v.free
  pub same_children : view.children ≡ v.children
  pub same_rank : view.rank ≡ v.rank
  pub same_parents : (x : ℕ) → (t.pcb x).p_parent ≡ (s.pcb x).p_parent

-- A process that waits names its semaphore, which is not NULL.
pub waiting_named :
    {s : Store} {r : Rings} {js fs : List ℕ} {queue : ℕ → List ℕ}
    → IsAsl s r js fs queue
    → (k p : ℕ) → In p (waiting s js queue k)
    → (s.pcb p).p_sem_add ≡ k
waiting_named {s} {r} {js} {queue = queue} a k p m = at (find_key s.s_key k js) refl m
  where
    at :
        (o : Option ℕ)
        → find_key s.s_key k js ≡ o
        → In p (queue_at queue o)
        → (s.pcb p).p_sem_add ≡ k
    at none e m = elim m [ ]
    at (some j) e m =
        let (ej, q) = find_key-some s.s_key k (λ x. IsQueue s r x (queue x)) js j e a.queues in
        All-In (λ x. (s.pcb x).p_sem_add ≡ s.s_key j) p (queue j) q.named m ∙ ej

module _ {s : Store} {r : Rings} {v : View} {hs : List ℕ} (p : ℕ) (i : IsStore s r v hs) where
  -- A ready process leaves the ready queue.
  pub out_ready-Dying :
      In p v.ready
      → (t : Links) × (out_proc_q ready_queue p s ≡ some (some p, with_links s t))
        × Dying s v hs p (with_links s t)
  out_ready-Dying m =
      let (us, ws, e, fresh) = In-split p v.ready m in
      let small = subst (λ xs. length xs ≤ maxproc) e (ready_small i) in
      let (t, run, l) =
        out_proc_q-Leaves s r ready_queue i.asl.linked i.queues.ready_head p us ws
          (i.queues.ready_entries ∙ ap (map p_list) e) fresh small in
      let j : IsStore s r (record v { ready = us ++ p ∷ ws }) hs =
        subst (λ xs. IsStore s r (record v { ready = xs }) hs) e i in
      (
        t,
        run,
        record {
          rings = _;
          view = _;
          store = take_ready-IsStore v p hs us ws j t l;
          same_free = refl;
          same_children = refl;
          same_rank = refl;
          same_parents = λ x. refl;
        },
      )

  -- A process that waits leaves its semaphore.
  pub out_waiting-Dying :
      (k : ℕ)
      → In p (waiting s v.js v.queue k)
      → (t : Store) × ((s.pcb p).p_sem_add ≡ k)
        × (k ≢ 0)
        × (out_blocked p s ≡ some (some p, t))
        × Dying s v hs p t
  out_waiting-Dying k m =
      let (us, ws, e, fresh) = In-split p (waiting s v.js v.queue k) m in
      let named = waiting_named i.asl k p m in
      let ne : k ≢ 0 =
        λ d. not-In p [] tt (subst (In p) (ap (waiting s v.js v.queue) d ∙ i.placed.not_null) m) in
      let (t, run, l) = out_blocked-Left i.asl k p us ws named ne e fresh in
      (
        t,
        named,
        ne,
        run,
        record {
          rings = l.rings;
          view = _;
          store = Left-IsStore k p us ws t i e l;
          same_free = refl;
          same_children = refl;
          same_rank = refl;
          same_parents = λ x. ap (λ (f : ℕ → Pcb). (f x).p_parent) l.same;
        },
      )
