-- ===== src/Asl/Create.antt =====
-- `insertBlocked` of phase1/asl.c: a new descriptor is taken off the free list and put into its
-- place in the sorted list.
use mathlib.Core.List.{map-append}
use mathlib.Core.Path.{ap₂}
use progetto_so.Base.{
  ℕ, ◌≡◌, sym, ap, subst, ◌∙◌, ◌≢◌, inl, inr, none, some, List, [], ◌∷◌, ◌++◌, map, arith, All,
  Fresh, first, length, length-append, eq_cases, write, write_self, write_ne, ◌>>=◌,
}
use progetto_so.ListX.{Links}
use progetto_so.ListX.Rings.{Rings, Linked, head, loose, in_ring, head-ne-in_ring}
use progetto_so.ListX.Operations.{next-first, list_empty-cons}
use progetto_so.Memory.{Store, s_procq, s_link, semd_h, semd_free_h, container_of}
use progetto_so.Asl.{link_semd_from, new_semd}
use progetto_so.Asl.Inv.{IsAsc, IsCore, IsQueue, find_key, find_key-none}
use progetto_so.Asl.Order.{below, above, below-above, All-below, All-above, IsAsc-insert}
use progetto_so.Asl.Place.{Placed, link_semd_from-Placed, below-cong}
use progetto_so.Asl.Taken.{
  in_use, taken_rings, ready_rings, in_use_rings, Fresh-in_use, kept-IsQueue, added-IsQueue,
  taken_links, taken-Linked, created,
}

module _ {s : Store} {r : Rings} {js fs : List ℕ} {j : ℕ} {queue : ℕ → List ℕ}
    (v : IsCore s r js (j ∷ fs) queue) (k : ℕ) (missing : find_key s.s_key k js ≡ none) where
  created-IsCore :
      (t : Links)
      → Linked t (in_use_rings v k missing)
      → IsCore
          ((created v k missing) t)
          (in_use_rings v k missing)
          (in_use v k missing)
          fs
          (write queue j [])
  created-IsCore t l =
      let whole = below-above s.s_key k js in
      let f : Fresh j (below s.s_key k js ++ above s.s_key k js) =
        subst (Fresh j) (sym whole) (Fresh-in_use v k missing) in
      let old : All (λ i. IsQueue s r i (queue i)) (below s.s_key k js ++ above s.s_key k js) =
        subst (All (λ i. IsQueue s r i (queue i))) (sym whole) v.queues in
      record {
        linked = l;
        active_head =
            write_ne (ready_rings v k missing).role (s_link j) (in_ring semd_h) semd_h (omega arith)
            ∙ (write_ne (taken_rings v k missing).role (s_procq j) head semd_h (omega arith)
                ∙ (write_ne r.role (s_link j) loose semd_h (omega arith) ∙ v.active_head));
        free_head =
            write_ne (ready_rings v k missing).role (s_link j) (in_ring semd_h) semd_free_h
              (omega arith)
            ∙ (write_ne (taken_rings v k missing).role (s_procq j) head semd_free_h (omega arith)
                ∙ (write_ne r.role (s_link j) loose semd_free_h (omega arith) ∙ v.free_head));
        active = write_self (ready_rings v k missing).list semd_h (map s_link (in_use v k missing));
        free = write_ne (taken_rings v k missing).list (s_procq j) [] semd_free_h (omega arith);
        sorted =
            IsAsc-insert s.s_key k j (below s.s_key k js) (above s.s_key k js) f
              (All-below s.s_key k js (find_key-none s.s_key k js missing))
              (All-above s.s_key k js v.sorted) (subst (IsAsc s.s_key) (sym whole) v.sorted);
        bounded =
            let b = v.bounded in
            omega (
              arith,
              length-append (below s.s_key k js) (j ∷ above s.s_key k js),
              length-append (below s.s_key k js) (above s.s_key k js),
              ap (length {A = ℕ}) whole,
            );
        queues = added_queues t (below s.s_key k js) (above s.s_key k js) f old;
        sentinels = λ i n e. sentinel i n e;
      }
    where
      kept_queues :
          (t : Links) (is : List ℕ)
          → Fresh j is
          → All (λ i. IsQueue s r i (queue i)) is
          → All
              (λ i.
                IsQueue ((created v k missing) t) (in_use_rings v k missing) i (write queue j [] i))
              is
      kept_queues t = elim [
        | [] ↦ λ _ _. tt
        | i ∷ (is → ih) ↦ λ g h. ((kept-IsQueue v k missing) t i g.0 h.0, ih g.1 h.1)
      ]

      added_queues :
          (t : Links) (xs ys : List ℕ)
          → Fresh j (xs ++ ys)
          → All (λ i. IsQueue s r i (queue i)) (xs ++ ys)
          → All
              (λ i.
                IsQueue ((created v k missing) t) (in_use_rings v k missing) i (write queue j [] i))
              (xs ++ j ∷ ys)
      added_queues t xs ys =
          (elim xs
            as (λ zs.
              Fresh j (zs ++ ys)
              → All (λ i. IsQueue s r i (queue i)) (zs ++ ys)
              → All
                  (λ i.
                    IsQueue ((created v k missing) t) (in_use_rings v k missing) i
                      (write queue j [] i))
                  (zs ++ j ∷ ys)) [
                    | [] ↦ λ g h. ((added-IsQueue v k missing) t, kept_queues t ys g h)
                    | i ∷ (zs → ih) ↦ λ g h. ((kept-IsQueue v k missing) t i g.0 h.0, ih g.1 h.1)
                  ])

      sentinel : (i n : ℕ) → (in_use_rings v k missing).role (s_procq i) ≢ in_ring n
      sentinel i n e = elim (eq_cases i j) [
        | inl q ↦ head-ne-in_ring n (
            sym (
              ap (in_use_rings v k missing).role (ap s_procq q)
              ∙ (write_ne (ready_rings v k missing).role (s_link j) (in_ring semd_h) (s_procq j)
                    (omega arith)
                  ∙ write_self (taken_rings v k missing).role (s_procq j) head))
            ∙ e)
        | inr ne ↦ v.sentinels i n (
            sym (
              write_ne (ready_rings v k missing).role (s_link j) (in_ring semd_h) (s_procq i)
                (omega arith)
              ∙ (write_ne (taken_rings v k missing).role (s_procq j) head (s_procq i) (omega arith)
                  ∙ write_ne r.role (s_link j) loose (s_procq i) (omega arith)))
            ∙ e)
      ]

  -- The order of the keys is not affected by the key of the new descriptor.
  in_use_lem :
      map s_link (below (write s.s_key j k) (write s.s_key j k j) js)
        ++ s_link j ∷ map s_link (above (write s.s_key j k) (write s.s_key j k j) js)
      ≡ map s_link (in_use v k missing)
  in_use_lem =
      let same = below-cong s.s_key k j js (Fresh-in_use v k missing) in
      ap
        (λ x.
          map s_link (below (write s.s_key j k) x js)
          ++ s_link j ∷ map s_link (above (write s.s_key j k) x js))
        (write_self s.s_key j k)
      ∙ (ap₂ (λ xs ys. map s_link xs ++ s_link j ∷ map s_link ys) same.0 same.1
          ∙ sym (map-append s_link (below s.s_key k js) (j ∷ above s.s_key k js)))

  placed :
      (t : Links) × (link_semd_from 21 j
          ((taken_links v k missing).next semd_h)
          ((created v k missing) (taken_links v k missing))
        ≡ some ((created v k missing) t))
      × Linked t (in_use_rings v k missing)
  placed =
      let act : (ready_rings v k missing).list semd_h ≡ map s_link js =
        write_ne (taken_rings v k missing).list (s_procq j) [] semd_h (omega arith)
        ∙ (write_ne r.list semd_free_h (map s_link fs) semd_h (omega arith) ∙ v.active) in
      let hh : (ready_rings v k missing).role semd_h ≡ head =
        write_ne (taken_rings v k missing).role (s_procq j) head semd_h (omega arith)
        ∙ (write_ne r.role (s_link j) loose semd_h (omega arith) ∙ v.active_head) in
      let hj : (ready_rings v k missing).role (s_link j) ≡ loose =
        write_ne (taken_rings v k missing).role (s_procq j) head (s_link j) (omega arith)
        ∙ write_self r.role (s_link j) loose in
      let b = v.bounded in
      let begin : (taken_links v k missing).next semd_h ≡ first (map s_link js) semd_h =
        next-first (taken_links v k missing) (ready_rings v k missing) (taken-Linked v k missing)
          semd_h hh
        ∙ ap (λ xs. first xs semd_h) act in
      subst
        (λ a.
          (t : Links) × (link_semd_from 21 j a ((created v k missing) (taken_links v k missing))
            ≡ some ((created v k missing) t))
          × Linked t (in_use_rings v k missing))
        (sym begin)
        (subst
          (λ xs.
            Placed ((created v k missing) (taken_links v k missing)) (ready_rings v k missing) j
              (taken-Linked v k missing) hh hj xs
              (link_semd_from 21 j (first (map s_link js) semd_h)
                ((created v k missing) (taken_links v k missing))))
          in_use_lem
          (link_semd_from-Placed ((created v k missing) (taken_links v k missing))
            (ready_rings v k missing) j (taken-Linked v k missing) hh hj 21 [] js act
            (omega arith)))

  new_semd_step : new_semd k s ≡ (
      link_semd_from 21 j
        ((taken_links v k missing).next semd_h)
        ((created v k missing) (taken_links v k missing))
      >>= λ u. some (some j, u))
  unfolding new_semd
  new_semd_step =
      let start : s.links.next semd_free_h ≡ s_link j =
        next-first s.links r v.linked semd_free_h v.free_head
        ∙ ap (λ xs. first xs semd_free_h) v.free in
      let at_j : container_of (s_link j) 4 ≡ j = omega arith in
      rw (
        list_empty-cons s.links r v.linked semd_free_h v.free_head (s_link j) (map s_link fs)
            v.free,
        start,
        at_j,
      )

  -- A key that is not in the list gets the first free descriptor, in its place and with no one
  -- waiting.
  pub new_semd-IsCore :
      (t : Links) × (new_semd k s ≡ some (some j, (created v k missing) t))
      × IsCore
          ((created v k missing) t)
          (in_use_rings v k missing)
          (in_use v k missing)
          fs
          (write queue j [])
  new_semd-IsCore = (
    placed.0,
    new_semd_step ∙ ap (λ o. o >>= λ u. some (some j, u)) placed.1,
    created-IsCore placed.0 placed.2,
  )
