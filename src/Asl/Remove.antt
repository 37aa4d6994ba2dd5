-- ===== src/Asl/Remove.antt =====
-- `removeBlocked` and `outBlocked` of phase1/asl.c as a whole, against the queues that the list
-- stands for.
use progetto_so.Base.{
  ℕ, ◌≡◌, refl, sym, ap, subst, ◌∙◌, ◌≢◌, Option, none, some, List, [], ◌∷◌, ◌++◌, map, arith, All,
  All-append, All-left, All-right, Fresh, ◌==◌, ==_ne, if◌then◌else◌, write, write_self, write_ne,
  ◌>>=◌, ◌+◌, length, length-append,
}
use progetto_so.ListX.{Links, list_add, list_del}
use progetto_so.ListX.Rings.{Rings, Linked, head, loose}
use progetto_so.Memory.{Store, p_list, s_procq, s_link, semd_free_h, with_links}
use progetto_so.Pcb.{empty_proc_q, out_proc_q}
use progetto_so.Pcb.Queues.{
  remove_proc_q-Removed, out_proc_q-Leaves, empty_proc_q-is_empty, is_empty,
}
use progetto_so.Asl.{release_semd, release_removed, remove_from, remove_blocked, out_blocked}
use progetto_so.Asl.Inv.{IsAsl, IsCore, IsQueue, find_key, find_key-some, waiting, queue_at}
use progetto_so.Asl.Search.{get_semd-find_key}
use progetto_so.Asl.Kept.{Kept, Kept-trans}
use progetto_so.Asl.Emptied.{Fresh-IsAsc, left_waits, gone_waits, Fresh-busy, kept_busy}
use progetto_so.Asl.Leave.{left_rings, left-IsCore, left-Kept}
use progetto_so.Asl.Release.{
  find_key-remove, find_key-split, released_role, released_rings, released-IsCore, released-Kept,
}

module _ (s : Store) (r : Rings) (js fs : List ℕ) (queue : ℕ → List ℕ) (k p : ℕ)
    (rest : List ℕ) where
  -- `p` no longer waits at the semaphore `k`, where `rest` still does.
  pub record Left (t : Store) : Type 0 where
    pub rings : Rings
    pub active : List ℕ
    pub free : List ℕ
    pub queues : ℕ → List ℕ
    pub valid : IsAsl t rings active free queues
    pub waits :
        (i : ℕ) → waiting t active queues i ≡ (if i == k then rest else waiting s js queue i)
    pub loosened : rings.role (p_list p) ≡ loose
    pub same : t.pcb ≡ s.pcb
    pub kept : Kept p r rings
    pub conserved : length active + length free ≡ length js + length fs

nonempty : (z : ℕ) (zs : List ℕ) → z ∷ zs ≢ []
nonempty z zs e = cc

module _ {s : Store} {r : Rings} {js fs : List ℕ} {queue : ℕ → List ℕ} (v : IsAsl s r js fs queue)
    (k p j : ℕ) (us ws : List ℕ) (e : find_key s.s_key k js ≡ some j)
    (q : IsQueue s r j (us ++ p ∷ ws)) (ej : s.s_key j ≡ k) (t : Links)
    (l : Linked t (left_rings v.core p j us ws q t)) where
  stays-Left : us ++ ws ≢ [] → Left s r js fs queue k p (us ++ ws) (with_links s t)
  stays-Left ne = record {
    rings = left_rings v.core p j us ws q t;
    active = js;
    free = fs;
    queues = write queue j (us ++ ws);
    valid = record {
      core = left-IsCore v.core p j us ws q t l;
      busy = kept_busy queue j (us ++ ws) ne js v.busy;
    };
    waits = left_waits s.s_key js queue j k (us ++ ws) e ej;
    loosened = write_self r.role (p_list p) loose;
    same = refl;
    kept = left-Kept v.core p j us ws q t;
    conserved = refl;
  }

  goes-Left :
      (xs ys : List ℕ)
      → js ≡ xs ++ j ∷ ys
      → us ++ ws ≡ []
      → Left s r js fs queue k p
          (us ++ ws)
          (with_links s (list_add (s_link j) semd_free_h (list_del (s_link j) t)))
  goes-Left xs ys d none_left =
      let c : IsCore (with_links s t) (left_rings v.core p j us ws q t) (xs ++ j ∷ ys) fs
          (write queue j (us ++ ws)) =
        subst
          (λ zs.
            IsCore (with_links s t) (left_rings v.core p j us ws q t) zs fs
              (write queue j (us ++ ws)))
          d (left-IsCore v.core p j us ws q t l) in
      let fresh = Fresh-IsAsc s.s_key j xs ys c.sorted in
      let b : All (λ i. queue i ≢ []) (xs ++ j ∷ ys) = subst (All (λ i. queue i ≢ [])) d v.busy in
      record {
        rings = released_rings xs ys j c;
        active = xs ++ ys;
        free = j ∷ fs;
        queues = write queue j (us ++ ws);
        valid = record {
          core = released-IsCore xs ys j c;
          busy = Fresh-busy queue j (us ++ ws) (xs ++ ys) fresh (
              All-append (λ i. queue i ≢ []) xs ys (All-left (λ i. queue i ≢ []) xs (j ∷ ys) b)
                (All-right (λ i. queue i ≢ []) xs (j ∷ ys) b).1);
        };
        waits = gone_waits s.s_key js queue j k (us ++ ws) e ej none_left (xs ++ ys) λ i.
            find_key-remove s.s_key j xs ys c.sorted i
            ∙ ap (λ zs. if i == s.s_key j then none else find_key s.s_key i zs) (sym d);
        loosened =
            released_role xs ys j c (p_list p) (omega arith) ∙ write_self r.role (p_list p) loose;
        same = refl;
        kept =
            Kept-trans p r (left_rings v.core p j us ws q t) (released_rings xs ys j c)
              (left-Kept v.core p j us ws q t) (released-Kept xs ys j c p);
        conserved =
            omega (arith, length-append xs (j ∷ ys), length-append xs ys, ap (length {A = ℕ}) d);
      }

  -- A process that has left its queue waits no more, whether the descriptor is released or not.
  release_semd-Left : Left s r js fs queue k p (us ++ ws) (release_semd j (with_links s t))
  unfolding release_semd
  release_semd-Left = at (us ++ ws) refl
    where
      c : IsCore (with_links s t) (left_rings v.core p j us ws q t) js fs (write queue j (us ++ ws))
      c = left-IsCore v.core p j us ws q t l

      at_head : (left_rings v.core p j us ws q t).role (s_procq j) ≡ head
      at_head = write_ne r.role (p_list p) loose (s_procq j) (omega arith) ∙ q.at_head

      entries : (left_rings v.core p j us ws q t).list (s_procq j) ≡ map p_list (us ++ ws)
      entries = write_self r.list (s_procq j) (map p_list (us ++ ws))

      empty :
          (zs : List ℕ) → us ++ ws ≡ zs → empty_proc_q (s_procq j) (with_links s t) ≡ is_empty zs
      empty zs d =
          empty_proc_q-is_empty (with_links s t) (left_rings v.core p j us ws q t) (s_procq j) l
            at_head zs (entries ∙ ap (map p_list) d)

      at :
          (zs : List ℕ)
          → us ++ ws ≡ zs
          → Left s r js fs queue k p (us ++ ws) (release_semd j (with_links s t))
      at [] d =
          let (xs, ys, split) = find_key-split s.s_key k j js e in
          subst
            (λ b. Left s r js fs queue k p (us ++ ws) (
              if b
              then with_links s (list_add (s_link j) semd_free_h (list_del (s_link j) t))
              else with_links s t))
            (sym (empty [] d)) (goes-Left xs ys split d)
      at (z ∷ zs) d =
          subst
            (λ b. Left s r js fs queue k p (us ++ ws) (
              if b
              then with_links s (list_add (s_link j) semd_free_h (list_del (s_link j) t))
              else with_links s t))
            (sym (empty (z ∷ zs) d)) (stays-Left (λ n. nonempty z zs (sym d ∙ n)))

module _ {s : Store} {r : Rings} {js fs : List ℕ} {queue : ℕ → List ℕ} (v : IsAsl s r js fs queue)
    (k : ℕ) where
  -- The outcome of taking the first process off the queue of a semaphore.
  abbrev pub Unblocked : List ℕ → Option (Option ℕ × Store) → Type 0
  Unblocked [] o = o ≡ some (none, s)
  Unblocked (p ∷ ps) o = (t : Store) × (o ≡ some (some p, t)) × Left s r js fs queue k p ps t

  remove_from-Unblocked :
      (j : ℕ)
      → find_key s.s_key k js ≡ some j
      → s.s_key j ≡ k
      → (ps : List ℕ) → IsQueue s r j ps
      → ps ≢ []
      → Unblocked ps (some (remove_from j s))
  unfolding remove_from
  remove_from-Unblocked j e ej [] q ne = absurd (ne refl)
  remove_from-Unblocked j e ej (p ∷ ps) q ne =
      let (t, run, l) =
        remove_proc_q-Removed s r (s_procq j) v.linked q.at_head (p ∷ ps) q.entries in
      (release_semd j (with_links s t), rw run, release_semd-Left v k p j [] ps e q ej t l)

  -- Under the invariant of the active semaphore list, `removeBlocked` returns NULL and changes
  -- nothing if no process waits at the semaphore. Else it returns the one that has waited longest,
  -- which is in no queue then, the others wait on in their order, the queue of every other
  -- semaphore is as it was, no PCB is written, and the invariant holds again: a descriptor whose
  -- queue has become empty is free.
  pub remove_blocked-Unblocked : Unblocked (waiting s js queue k) (remove_blocked k s)
  unfolding remove_blocked
  remove_blocked-Unblocked = rw (get_semd-find_key v k) (at (find_key s.s_key k js) refl)
    where
      at :
          (o : Option ℕ)
          → find_key s.s_key k js ≡ o
          → Unblocked
              (queue_at queue o)
              (elim o [ none ↦ some (none, s) | some sem ↦ some (remove_from sem s) ])
      at none e = refl
      at (some j) e =
          let (ej, q) = find_key-some s.s_key k (λ i. IsQueue s r i (queue i)) js j e v.queues in
          let ne = (find_key-some s.s_key k (λ i. queue i ≢ []) js j e v.busy).1 in
          remove_from-Unblocked j e ej (queue j) q ne

  -- Under the invariant of the active semaphore list, if `p` names the semaphore `k`, which is not
  -- NULL, and waits there behind the processes `us`, of which it is none, `outBlocked` returns
  -- `p`, which is in no queue then; those before and behind it wait on in their order, the queue
  -- of every other semaphore is as it was, no PCB is written, and the invariant holds again.
  pub out_blocked-Left :
      (p : ℕ) (us ws : List ℕ)
      → (s.pcb p).p_sem_add ≡ k
      → k ≢ 0
      → waiting s js queue k ≡ us ++ p ∷ ws
      → Fresh p us
      → (t : Store) × (out_blocked p s ≡ some (some p, t)) × Left s r js fs queue k p (us ++ ws) t
  unfolding out_blocked
  out_blocked-Left p us ws named ne wait fresh =
      rw (named, ==_ne k 0 ne, get_semd-find_key v k) (at (find_key s.s_key k js) refl)
    where
      at :
          (o : Option ℕ)
          → find_key s.s_key k js ≡ o
          → (t : Store) × (◌≡◌ {A = Option (Option ℕ × Store)}
              (elim o [
                | none ↦ some (none, s)
                | some sem ↦ out_proc_q (s_procq sem) p s >>= λ x. some (release_removed sem x)
              ])
              (some (some p, t)))
            × Left s r js fs queue k p (us ++ ws) t
      at none e = absurd (absent us (sym (ap (queue_at queue) e) ∙ wait))
        where
          absent : (xs : List ℕ) → [] ≢ xs ++ p ∷ ws
          absent = elim [ [] ↦ λ z. cc | x ∷ xs ↦ λ z. cc ]
      at (some j) e =
          let (ej, q) = find_key-some s.s_key k (λ i. IsQueue s r i (queue i)) js j e v.queues in
          let here : queue j ≡ us ++ p ∷ ws = sym (ap (queue_at queue) e) ∙ wait in
          let q' : IsQueue s r j (us ++ p ∷ ws) = subst (IsQueue s r j) here q in
          let (t, run, l) =
            out_proc_q-Leaves s r (s_procq j) v.linked q'.at_head p us ws q'.entries fresh
              q'.small in
          (release_semd j (with_links s t), rw run, release_semd-Left v k p j us ws e q' ej t l)
