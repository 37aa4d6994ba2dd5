-- ===== src/Asl/Block.antt =====
-- `insertBlocked` of phase1/asl.c as a whole, against the queues that the list stands for.
use progetto_so.Base.{
  ℕ, ◌<◌, ◌≡◌, refl, sym, ap, subst, ◌∙◌, ◌≢◌, ◌⊎◌, inl, inr, Bool, true, false, Option, none, some,
  List, [], ◌∷◌, ◌++◌, arith, All, All-right, Fresh, length, ◌==◌, if◌then◌else◌, write, write_self,
  write_ne, ◌+◌, length-append,
}
use progetto_so.ListX.Rings.{Rings, loose}
use progetto_so.ListX.Operations.{list_empty-nil}
use progetto_so.Memory.{maxproc, Store, p_list, semd_free_h}
use progetto_so.Asl.{block_on, insert_blocked, new_semd}
use progetto_so.Asl.Inv.{
  IsAsl, IsCore, IsQueue, find_key, find_key-some, find_key-none, waiting, queue_at,
}
use progetto_so.Asl.Search.{get_semd-find_key}
use progetto_so.Asl.Order.{below, above, below-above, find_key-insert}
use progetto_so.Asl.Insert.{joined_rings, block_on-IsCore}
use progetto_so.Asl.Kept.{Kept, joined_rings-Kept, Kept-in_use, Kept-trans}
use progetto_so.Asl.Waiting.{joined_busy, joined_waits, opened, opened_busy, opened_waits}
use progetto_so.Asl.Create.{new_semd-IsCore}
use progetto_so.Asl.Taken.{in_use, in_use_rings, created, Fresh-in_use}

module _ (s : Store) (r : Rings) (js fs : List ℕ) (queue : ℕ → List ℕ) (k p : ℕ) where
  -- `p` waits behind the others at the semaphore `k`.
  pub record Waits (o : Option (Bool × Store)) : Type 0 where
    pub store : Store
    pub rings : Rings
    pub active : List ℕ
    pub free : List ℕ
    pub queues : ℕ → List ℕ
    pub returns : o ≡ some (false, store)
    pub valid : IsAsl store rings active free queues
    pub waits :
        (i : ℕ)
        → waiting store active queues i
          ≡ (if i == k then waiting s js queue k ++ p ∷ [] else waiting s js queue i)
    pub named : store.pcb p ≡ record (s.pcb p) { p_sem_add = k }
    pub others : (q : ℕ) → q ≢ p → store.pcb q ≡ s.pcb q
    pub kept : Kept p r rings
    pub conserved : length active + length free ≡ length js + length fs

module _ {s : Store} {r : Rings} {js fs : List ℕ} {queue : ℕ → List ℕ} (v : IsAsl s r js fs queue)
    (k p : ℕ) (hp : r.role (p_list p) ≡ loose) where
  insert_blocked-found :
      (j : ℕ)
      → find_key s.s_key k js ≡ some j
      → length (queue j) < maxproc
      → Waits s r js fs queue k p (insert_blocked k p s)
  unfolding insert_blocked block_on
  insert_blocked-found j e room =
      let (ej, q) = find_key-some s.s_key k (λ i. IsQueue s r i (queue i)) js j e v.queues in
      record {
        store = block_on j k p s;
        rings = joined_rings v.core p j hp q room;
        active = js;
        free = fs;
        queues = write queue j (queue j ++ p ∷ []);
        returns = rw (get_semd-find_key v k, e);
        valid = record {
          core =
              subst
                (λ x.
                  IsCore (block_on j x p s) (joined_rings v.core p j hp q room) js fs
                    (write queue j (queue j ++ p ∷ [])))
                ej (block_on-IsCore v.core p j hp q room);
          busy = joined_busy queue j p js v.busy;
        };
        waits = joined_waits s.s_key js queue j k p e ej;
        named = write_self s.pcb p (record (s.pcb p) { p_sem_add = k });
        others = λ i ne. write_ne s.pcb p (record (s.pcb p) { p_sem_add = k }) i ne;
        kept = joined_rings-Kept v.core p j hp q room;
        conserved = refl;
      }

module _ {s : Store} {r : Rings} {js fs : List ℕ} {j : ℕ} {queue : ℕ → List ℕ}
    (v : IsAsl s r js (j ∷ fs) queue) (k p : ℕ) (hp : r.role (p_list p) ≡ loose)
    (missing : find_key s.s_key k js ≡ none) where
  insert_blocked-opened : Waits s r js (j ∷ fs) queue k p (insert_blocked k p s)
  unfolding insert_blocked block_on
  insert_blocked-opened =
      let xs = below s.s_key k js in
      let ys = above s.s_key k js in
      let new = new_semd-IsCore v.core k missing in
      let t : Store = created v.core k missing new.0 in
      let c = new.2 in
      let here : IsQueue t (in_use_rings v.core k missing) j (write queue j [] j) =
        (All-right (λ i. IsQueue t (in_use_rings v.core k missing) i (write queue j [] i)) xs
          (j ∷ ys) c.queues).0 in
      let hp' : (in_use_rings v.core k missing).role (p_list p) ≡ loose = ground (arith, hp) in
      let room : length (write queue j [] j) < maxproc = rw (write_self queue j []) (omega arith) in
      let whole = below-above s.s_key k js in
      let f : Fresh j (xs ++ ys) = subst (Fresh j) (sym whole) (Fresh-in_use v.core k missing) in
      record {
        store = block_on j k p t;
        rings = joined_rings c p j hp' here room;
        active = in_use v.core k missing;
        free = fs;
        queues = opened queue j p;
        returns = rw (get_semd-find_key v k, missing, new.1);
        valid = record {
          core =
              subst
                (λ x.
                  IsCore (block_on j x p t) (joined_rings c p j hp' here room)
                    (in_use v.core k missing) fs (opened queue j p))
                (write_self s.s_key j k) (block_on-IsCore c p j hp' here room);
          busy = opened_busy queue j p xs ys f (subst (All (λ i. queue i ≢ [])) (sym whole) v.busy);
        };
        waits =
            opened_waits s.s_key (write s.s_key j k) js (in_use v.core k missing) queue j k p
              (Fresh-in_use v.core k missing) missing
              λ i.
                find_key-insert s.s_key k j xs ys f
                  (subst (All (λ x. s.s_key x ≢ k)) (sym whole)
                    (find_key-none s.s_key k js missing))
                  i
                ∙ ap (λ zs. if i == k then some j else find_key s.s_key i zs) whole;
        named = write_self s.pcb p (record (s.pcb p) { p_sem_add = k });
        others = λ i ne. write_ne s.pcb p (record (s.pcb p) { p_sem_add = k }) i ne;
        kept =
            Kept-trans p r (in_use_rings v.core k missing) _ (Kept-in_use v.core k p missing)
              (joined_rings-Kept c p j hp' here room);
        conserved = omega (
          arith,
          length-append (below s.s_key k js) (j ∷ above s.s_key k js),
          length-append (below s.s_key k js) (above s.s_key k js),
          ap (length {A = ℕ}) whole,
        );
      }

module _ {s : Store} {r : Rings} {js : List ℕ} {queue : ℕ → List ℕ} (v : IsAsl s r js [] queue)
    (k p : ℕ) (missing : find_key s.s_key k js ≡ none) where
  -- Under the invariant of the active semaphore list, if no process waits at the semaphore and no
  -- descriptor is free, `insertBlocked` returns TRUE and changes nothing.
  pub insert_blocked-full : insert_blocked k p s ≡ some (true, s)
  unfolding insert_blocked new_semd
  insert_blocked-full = rw (
    get_semd-find_key v k,
    missing,
    list_empty-nil s.links r v.linked semd_free_h v.free_head v.free,
  )

-- Under the invariant of the active semaphore list, let `p` be a PCB in no queue, let fewer than
-- `MAXPROC` processes wait at the semaphore `k`, and let a descriptor be free or some process wait
-- there. Then `insertBlocked` returns FALSE, the invariant holds again, `p` waits at `k` behind
-- those that did, the queue of every other semaphore is as it was, `p` names `k` as its semaphore,
-- all other PCBs and all but the semaphore lists are unchanged.
pub insert_blocked-Waits :
    {s : Store} {r : Rings} {js fs : List ℕ} {queue : ℕ → List ℕ}
    → IsAsl s r js fs queue
    → (k p : ℕ) → r.role (p_list p) ≡ loose
    → length (waiting s js queue k) < maxproc
    → (fs ≢ []) ⊎ (find_key s.s_key k js ≢ none)
    → Waits s r js fs queue k p (insert_blocked k p s)
insert_blocked-Waits {s} {r} {js} {fs} {queue} v k p hp room able = at (find_key s.s_key k js) refl
  where
    free :
        (is : List ℕ)
        → IsAsl s r js is queue
        → (is ≢ []) ⊎ (find_key s.s_key k js ≢ none)
        → find_key s.s_key k js ≡ none
        → Waits s r js is queue k p (insert_blocked k p s)
    free [] w (inl h) e = absurd (h refl)
    free [] w (inr h) e = absurd (h e)
    free (j ∷ is) w h e = insert_blocked-opened w k p hp e

    at :
        (o : Option ℕ)
        → find_key s.s_key k js ≡ o
        → Waits s r js fs queue k p (insert_blocked k p s)
    at none e = free fs v able e
    at (some j) e =
        insert_blocked-found v k p hp j e (subst (λ o. length (queue_at queue o) < maxproc) e room)
