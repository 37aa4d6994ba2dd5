-- ===== src/Nucleus/Sleep.antt =====
-- Processes that go to sleep at a semaphore and wake up, in the whole kernel.
use progetto_so.Base.{
  ℕ, ◌≡◌, ◌≢◌, inl, inr, refl, sym, ap, subst, ◌∙◌, false, Option, some, none, List, [], ◌∷◌, ◌++◌,
  All, Fresh, In, All-In, In-right, eq_cases,
}
use progetto_so.ListX.Rings.{Rings, loose, in_ring}
use progetto_so.Memory.{Pcb, Store, p_list, s_procq}
use progetto_so.Asl.{insert_blocked, remove_blocked}
use progetto_so.Asl.Inv.{IsAsl, waiting, queue_at, IsQueue, find_key, find_key-some}
use progetto_so.Asl.Kept.{Kept}
use progetto_so.Asl.Block.{Waits, insert_blocked-Waits}
use progetto_so.Asl.Remove.{Left, Unblocked, remove_blocked-Unblocked}
use progetto_so.Nucleus.{View, IsStore, IsNucleus}
use progetto_so.Nucleus.Places.{IsPlaced-asleep, IsPlaced-awake}
use progetto_so.Nucleus.Moves.{Fresh-loose, member_role, SameTree, IsFamily-same}
use progetto_so.Nucleus.Room.{semd_left, room_left}

-- What a call on the semaphores keeps of the tree and of the other queues.
Kept-SameTree :
    {s t : Store} {r r' : Rings} {p : ℕ}
    → Kept p r r'
    → ((q : ℕ) → (t.pcb q).p_parent ≡ (s.pcb q).p_parent)
    → SameTree s t r r'
Kept-SameTree k same = record {
  child_role = k.child_role;
  child_list = k.child_list;
  sib_role = k.sib_role;
  parents = same;
}

Kept-loose :
    {r r' : Rings} {p : ℕ} (qs : List ℕ)
    → Kept p r r'
    → Fresh p qs
    → All (λ q. r.role (p_list q) ≡ loose) qs
    → All (λ q. r'.role (p_list q) ≡ loose) qs
Kept-loose [] k f a = tt
Kept-loose (q ∷ qs) k f a = (k.list_role q (λ e. f.0 (sym e)) ∙ a.0, Kept-loose qs k f.1 a.1)

-- A process in hand that is blocked at a semaphore finds a descriptor and waits there.
pub insert_blocked-IsStore :
    {s : Store} {r : Rings} {v : View} {hs : List ℕ} (p k : ℕ)
    → IsStore s r v (p ∷ hs)
    → k ≢ 0
    → (w : Waits s r v.js v.fs v.queue k p (insert_blocked k p s)) × IsStore w.store w.rings
        (record v { js = w.active; fs = w.free; queue = w.queues })
        hs
insert_blocked-IsStore {s} {r} {v} {hs} p k i ne =
    let q = i.queues in
    let w : Waits s r v.js v.fs v.queue k p (insert_blocked k p s) =
      insert_blocked-Waits i.asl k p q.held_loose.0 (room_left i k) (inl (semd_left i)) in
    (
      w,
      record {
        asl = w.valid;
        semds = w.conserved ∙ i.semds;
        queues = record {
          ready_head = w.kept.ready_role ∙ q.ready_head;
          ready_entries = w.kept.ready_list ∙ q.ready_entries;
          free_head = w.kept.free_role ∙ q.free_head;
          free_entries = w.kept.free_list ∙ q.free_entries;
          held_loose = Kept-loose hs w.kept q.held_distinct.0 q.held_loose.1;
          held_distinct = q.held_distinct.1;
        };
        placed = IsPlaced-asleep k p ne w.waits i.placed;
        family = IsFamily-same (Kept-SameTree w.kept (parents w)) i.family;
      },
    )
  where
    parents :
        (w : Waits s r v.js v.fs v.queue k p (insert_blocked k p s))
        → (x : ℕ) → (w.store.pcb x).p_parent ≡ (s.pcb x).p_parent
    parents w x = elim (eq_cases x p) [
      | inl e ↦ rw e (ap (λ (y : Pcb). y.p_parent) w.named)
      | inr n ↦ ap (λ (y : Pcb). y.p_parent) (w.others x n)
    ]

-- A process that waits is in the queue of a descriptor.
pub waiting_role :
    {s : Store} {r : Rings} {js fs : List ℕ} {queue : ℕ → List ℕ}
    → IsAsl s r js fs queue
    → (k p : ℕ) → In p (waiting s js queue k)
    → (j : ℕ) × (r.role (p_list p) ≡ in_ring (s_procq j))
waiting_role {s} {r} {js} {queue} a k p m = at (find_key s.s_key k js) refl m
  where
    at :
        (o : Option ℕ)
        → find_key s.s_key k js ≡ o
        → In p (queue_at queue o)
        → (j : ℕ) × (r.role (p_list p) ≡ in_ring (s_procq j))
    at none e m = elim m [ ]
    at (some j) e m =
        let q = (find_key-some s.s_key k (λ x. IsQueue s r x (queue x)) js j e a.queues).1 in
        (
          j,
          All-In (λ x. r.role (p_list x) ≡ in_ring (s_procq j)) p (queue j)
              (member_role r (s_procq j) (queue j) s.links a.linked q.at_head q.entries) m,
        )

-- A process that has left the queue at a semaphore is in hand.
pub Left-IsStore :
    {s : Store} {r : Rings} {v : View} {hs : List ℕ} (k p : ℕ) (us ws : List ℕ) (t : Store)
    → IsStore s r v hs
    → waiting s v.js v.queue k ≡ us ++ p ∷ ws
    → (l : Left s r v.js v.fs v.queue k p (us ++ ws) t)
    → IsStore t l.rings (record v { js = l.active; fs = l.free; queue = l.queues }) (p ∷ hs)
Left-IsStore {s} {r} {v} {hs} k p us ws t i was l =
    let q = i.queues in
    let fresh : Fresh p hs =
      let (j, role) =
        waiting_role i.asl k p (subst (In p) (sym was) (In-right p us (p ∷ ws) (inl refl))) in
      Fresh-loose r.role p (s_procq j) hs role q.held_loose in
    record {
      asl = l.valid;
      semds = l.conserved ∙ i.semds;
      queues = record {
        ready_head = l.kept.ready_role ∙ q.ready_head;
        ready_entries = l.kept.ready_list ∙ q.ready_entries;
        free_head = l.kept.free_role ∙ q.free_head;
        free_entries = l.kept.free_list ∙ q.free_entries;
        held_loose = (l.loosened, Kept-loose hs l.kept fresh q.held_loose);
        held_distinct = (fresh, q.held_distinct);
      };
      placed = IsPlaced-awake k p us ws was l.waits i.placed;
      family =
          IsFamily-same (Kept-SameTree l.kept (λ x. ap (λ (f : ℕ → Pcb). (f x).p_parent) l.same))
            i.family;
    }

-- Let the invariant of the whole kernel hold with the process `p` in hand, and let the semaphore `k`
-- not be NULL. Then `insertBlocked` returns FALSE, so that it never runs out of descriptors, and the
-- invariant holds again with `p` no longer in hand.
pub insert_blocked-IsNucleus :
    (s : Store) (count p k : ℕ) (hs : List ℕ)
    → IsNucleus s count (p ∷ hs)
    → k ≢ 0
    → (t : Store) × (insert_blocked k p s ≡ some (false, t)) × IsNucleus t count hs
insert_blocked-IsNucleus s count p k hs n ne =
    let (w, i) = insert_blocked-IsStore p k n.store ne in
    (
      w.store,
      w.returns,
      record {
        rings = w.rings;
        view = record (n.view) { js = w.active; fs = w.free; queue = w.queues };
        store = i;
        counted = n.counted;
      },
    )

-- The outcome of taking a process off a semaphore.
abbrev pub Woken : Store → ℕ → List ℕ → Option (Option ℕ × Store) → Type 0
Woken s count hs none = ⊥
Woken s count hs (some (none, t)) = t ≡ s
Woken s count hs (some (some p, t)) = IsNucleus t count (p ∷ hs)

pub remove_blocked-Woken :
    (s : Store) (count k : ℕ) (hs : List ℕ)
    → IsNucleus s count hs
    → Woken s count hs (remove_blocked k s)
remove_blocked-Woken s count k hs n =
    at (waiting s n.view.js n.view.queue k) refl (remove_blocked-Unblocked n.store.asl k)
  where
    at :
        (ps : List ℕ)
        → waiting s n.view.js n.view.queue k ≡ ps
        → Unblocked n.store.asl k ps (remove_blocked k s)
        → Woken s count hs (remove_blocked k s)
    at [] e u = rw u refl
    at (p ∷ ps) e (t, run, l) = subst (Woken s count hs) (sym run) (record {
      rings = l.rings;
      view = record (n.view) { js = l.active; fs = l.free; queue = l.queues };
      store = Left-IsStore k p [] ps t n.store e l;
      counted = n.counted;
    })
