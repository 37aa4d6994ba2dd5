-- ===== src/Asl/Search.antt =====
-- `getSemd` of phase1/asl.c stops early in the sorted list, and still finds what a full search finds.
use mathlib.Core.List.{append_assoc, map-append}
use progetto_so.Base.{
  ℕ, zero, suc, ◌<◌, ◌≡◌, refl, sym, ap, ◌∙◌, inl, inr, Option, none, some, List, [], ◌∷◌, ◌++◌,
  map, arith, All-map, first, length, ltb, ◌==◌, ==_ne, Bool-cases,
}
use progetto_so.ListX.Rings.{Rings, Linked, head}
use progetto_so.ListX.Operations.{next-first, next-mid, entry-ne-head}
use progetto_so.Memory.{Store, s_link, s_procq, semd_h, container_of}
use progetto_so.Asl.{get_semd_from, get_semd, head_blocked}
use progetto_so.Asl.Inv.{
  IsAsc, IsAsl, IsQueue, find_key, find_key-above, find_key-some, waiting, queue_at,
}
use progetto_so.Pcb.{head_proc_q}
use progetto_so.Pcb.Queues.{front, head_proc_q-front}

module _ (s : Store) (r : Rings) (l : Linked s.links r) (hh : r.role semd_h ≡ head) (k : ℕ) where
  get_semd_from-find_key :
      (n : ℕ) (xs zs : List ℕ)
      → r.list semd_h ≡ map s_link xs ++ map s_link zs
      → IsAsc s.s_key zs
      → length zs < n
      → get_semd_from n k (first (map s_link zs) semd_h) s ≡ some (find_key s.s_key k zs)
  unfolding get_semd_from find_key
  get_semd_from-find_key zero xs zs e a f = absurd (omega arith)
  get_semd_from-find_key (suc n) xs [] e a f = refl
  get_semd_from-find_key (suc n) xs (z ∷ zs) e a f =
      let ne = entry-ne-head s.links r l semd_h hh (s_link z) (map s_link xs) (map s_link zs) e in
      let at_z : container_of (s_link z) 4 ≡ z = omega arith in
      elim (Bool-cases (s.s_key z == k)) [
        | inl found ↦ rw (==_ne (s_link z) semd_h ne, at_z, found)
        | inr other ↦ elim (Bool-cases (ltb k (s.s_key z))) [
          | inl past ↦
              let lt : k < s.s_key z = ground arith in
              rw (==_ne (s_link z) semd_h ne, at_z, other, past)
                (ap some (sym (find_key-above s.s_key k zs (All-map zs (λ y h. omega arith) a.0))))
          | inr on ↦
              rw
                (
                  ==_ne (s_link z) semd_h ne,
                  at_z,
                  other,
                  on,
                  next-mid s.links r l semd_h hh (s_link z) (map s_link xs) (map s_link zs) e,
                )
                (get_semd_from-find_key n (xs ++ z ∷ []) zs
                  (e
                    ∙ (sym (append_assoc (map s_link xs) (s_link z ∷ []) (map s_link zs))
                        ∙ ap (λ ys. ys ++ map s_link zs) (sym (map-append s_link xs (z ∷ [])))))
                  a.1 (omega arith))
        ]
      ]

module _ {s : Store} {r : Rings} {js fs : List ℕ} {queue : ℕ → List ℕ} (v : IsAsl s r js fs queue)
    (k : ℕ) where
  -- Under the invariant of the active semaphore list, `getSemd` returns what a search through all
  -- descriptors in use finds, though it stops at the first larger key.
  pub get_semd-find_key : get_semd k s ≡ some (find_key s.s_key k js)
  unfolding get_semd
  get_semd-find_key =
      let start : s.links.next semd_h ≡ first (map s_link js) semd_h =
        next-first s.links r v.linked semd_h v.active_head ∙ ap (λ xs. first xs semd_h) v.active in
      let b = v.bounded in
      ap (λ a. get_semd_from 21 k a s) start
      ∙ get_semd_from-find_key s r v.linked v.active_head k 21 [] js v.active v.sorted (omega arith)

  -- Under the invariant of the active semaphore list `headBlocked` returns the process that has
  -- waited longest at the semaphore, and NULL if none waits.
  pub head_blocked-waiting : head_blocked k s ≡ some (front (waiting s js queue k))
  unfolding head_blocked
  head_blocked-waiting = rw get_semd-find_key (at (find_key s.s_key k js) refl)
    where
      at :
          (o : Option ℕ)
          → find_key s.s_key k js ≡ o
          → ◌≡◌ {A = Option (Option ℕ)}
              (some (elim o [ none ↦ none | some sem ↦ head_proc_q (s_procq sem) s ]))
              (some (front (queue_at queue o)))
      at none e = refl
      at (some j) e =
          let q = (find_key-some s.s_key k (λ i. IsQueue s r i (queue i)) js j e v.queues).1 in
          ap some (head_proc_q-front s r (s_procq j) v.linked q.at_head (queue j) q.entries)
