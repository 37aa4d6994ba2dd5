-- ===== src/Nucleus/Room.antt =====
-- A process always finds room at a semaphore: there are as many descriptors as processes, and every
-- one in use has a process of its own.
use progetto_so.Base.{
  ℕ, suc, ◌<◌, ◌≡◌, ◌≢◌, inl, inr, refl, sym, ap, subst, ◌∙◌, Option, some, none, List, [], ◌∷◌,
  map, arith, All, Fresh, Distinct, Distinct-map, Distinct-length_lt, In, All-In, length, first,
  ==_refl, ==_ne,
}
use progetto_so.ListX.Rings.{Rings, Role, in_ring, in_ring-injective, loose-ne-in_ring}
use progetto_so.Memory.{maxproc, Store, p_list, s_procq, s_link, semd_h}
use progetto_so.Asl.Inv.{IsAsc, IsQueue, find_key, find_key-some, waiting, queue_at}
use progetto_so.Nucleus.{View, IsStore}
use progetto_so.Nucleus.Moves.{member_role, member-Distinct, Fresh-queued}

-- A descriptor in use is found by its key.
find_key-own :
    (key : ℕ → ℕ) (js : List ℕ) (j : ℕ) → IsAsc key js → In j js → find_key key (key j) js ≡ some j
unfolding find_key
find_key-own key [] j a m = elim m [ ]
find_key-own key (i ∷ js) j a (inl e) = rw (sym e, ==_refl (key j)) refl
find_key-own key (i ∷ js) j a (inr m) =
    let lt = All-In (λ y. key i < key y) j js a.0 m in
    let ne : key i ≢ key j = omega arith in
    rw (==_ne (key i) (key j) ne) (find_key-own key js j a.1 m)

-- Of lists that are not empty, with entries of different roles, the first ones are distinct.
length-map : (f : ℕ → ℕ) (xs : List ℕ) → length (map f xs) ≡ length xs
length-map f [] = refl
length-map f (x ∷ xs) = ap suc (length-map f xs)

Distinct-fronts :
    (role : ℕ → Role) (f : ℕ → ℕ) (js : List ℕ)
    → All (λ j. role (p_list (f j)) ≡ in_ring (s_procq j)) js
    → Distinct js
    → Distinct (map f js)
Distinct-fronts role f [] a d = tt
Distinct-fronts role f (j ∷ js) a d = (fresh js a.1 d.0, Distinct-fronts role f js a.1 d.1)
  where
    fresh :
        (is : List ℕ)
        → All (λ i. role (p_list (f i)) ≡ in_ring (s_procq i)) is
        → Fresh j is
        → Fresh (f j) (map f is)
    fresh = elim [
      | [] ↦ λ _ _. tt
      | i ∷ (is → ih) ↦ λ b g. (
        (λ e. g.0 (
            let q : s_procq j ≡ s_procq i =
              in_ring-injective (s_procq j) (s_procq i)
                (sym a.0 ∙ (ap (λ x. role (p_list x)) e ∙ b.0)) in
            omega arith)),
        ih b.1 g.1,
      )
    ]

All-every {κ} : (P : ℕ → Type κ) (xs : List ℕ) → ((x : ℕ) → In x xs → P x) → All P xs
All-every P [] h = tt
All-every P (x ∷ xs) h = (h x (inl refl), All-every P xs (λ y m. h y (inr m)))

All-over {κ} : (P : ℕ → Type κ) (f : ℕ → ℕ) (xs : List ℕ) → All (λ x. P (f x)) xs → All P (map f xs)
All-over P f [] h = tt
All-over P f (x ∷ xs) h = (h.0, All-over P f xs h.1)

module _ {s : Store} {r : Rings} {v : View} {hs : List ℕ} {p : ℕ} (i : IsStore s r v (p ∷ hs)) where
  abbrev front_of : ℕ → ℕ
  front_of j = first (v.queue j) 0

  -- The first process of the queue at a descriptor in use.
  front_here :
      (j : ℕ)
      → In j v.js
      → (r.role (p_list (front_of j)) ≡ in_ring (s_procq j)) × (front_of j < maxproc)
  front_here j m =
      let q = All-In (λ x. IsQueue s r x (v.queue x)) j v.js i.asl.queues m in
      let roles = member_role r (s_procq j) (v.queue j) s.links i.asl.linked q.at_head q.entries in
      let small =
        subst (All (λ x. x < maxproc))
          (ap (queue_at v.queue) (find_key-own s.s_key v.js j i.asl.sorted m))
          (i.placed.small_waits (s.s_key j)) in
      at (v.queue j) (All-In (λ x. v.queue x ≢ []) j v.js i.asl.busy m) roles small
    where
      at :
          (ps : List ℕ)
          → ps ≢ []
          → All (λ x. r.role (p_list x) ≡ in_ring (s_procq j)) ps
          → All (λ x. x < maxproc) ps
          → (r.role (p_list (first ps 0)) ≡ in_ring (s_procq j)) × (first ps 0 < maxproc)
      at = elim [ [] ↦ λ n _ _. absurd (n refl) | x ∷ xs ↦ λ _ a b. (a.0, b.0) ]

  -- A descriptor is free as long as a process is in hand.
  pub semd_left : v.fs ≢ []
  semd_left e =
      let js = v.js in
      let roles =
        All-every (λ j. r.role (p_list (front_of j)) ≡ in_ring (s_procq j)) js
          (λ j m. (front_here j m).0) in
      let distinct =
        Distinct-map s_link js
          (subst Distinct i.asl.active (i.asl.linked semd_h i.asl.active_head).distinct) in
      let fronts = map front_of js in
      let small : All (λ x. x < maxproc) fronts =
        All-over (λ x. x < maxproc) front_of js
          (All-every (λ j. front_of j < maxproc) js (λ j m. (front_here j m).1)) in
      let fresh : Fresh p fronts =
        All-over (λ x. p ≢ x) front_of js
          (All-every (λ j. p ≢ front_of j) js
            (λ j m q. loose-ne-in_ring (s_procq j) (
              sym i.queues.held_loose.0 ∙ (ap (λ x. r.role (p_list x)) q ∙ (front_here j m).0)))) in
      let lt =
        Distinct-length_lt maxproc p fronts (Distinct-fronts r.role front_of js roles distinct)
          small i.placed.small_held.0 fresh in
      let sum = i.semds in
      let none_free : length v.fs ≡ 0 = ap (length {A = ℕ}) e in
      omega (arith, length-map front_of js)

  -- And no queue is full.
  pub room_left : (k : ℕ) → length (waiting s v.js v.queue k) < maxproc
  room_left k = at (find_key s.s_key k v.js) refl
    where
      at : (o : Option ℕ) → find_key s.s_key k v.js ≡ o → length (queue_at v.queue o) < maxproc
      at none e = omega arith
      at (some j) e =
          let q =
            (find_key-some s.s_key k (λ x. IsQueue s r x (v.queue x)) v.js j e i.asl.queues).1 in
          Distinct-length_lt maxproc p (v.queue j)
            (member-Distinct r (s_procq j) (v.queue j) s.links i.asl.linked q.at_head q.entries)
            (subst (All (λ x. x < maxproc)) (ap (queue_at v.queue) e) (i.placed.small_waits k))
            i.placed.small_held.0
            (Fresh-queued r.role p (s_procq j) (v.queue j) i.queues.held_loose.0
              (member_role r (s_procq j) (v.queue j) s.links i.asl.linked q.at_head q.entries))
