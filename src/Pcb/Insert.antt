-- ===== src/Pcb/Insert.antt =====
-- `insertProcQ` of phase1/pcb.c puts a PCB into its place by priority.
use mathlib.Core.List.{append_assoc, map-append, append-nil}
use progetto_so.Base.{
  ℕ, zero, suc, ◌+◌, ◌%◌, ◌^◌, ◌≤◌, ◌<◌, ◌≡◌, refl, sym, ap, subst, ◌∙◌, inl, inr, Option, some,
  List, [], ◌∷◌, ◌++◌, map, arith, All, All-map, All-append, All-left, All-right, first, length,
  ltb, ==_refl, ==_ne, if◌then◌else◌, Bool-cases,
}
use progetto_so.ListX.{Links, list_add_tail}
use progetto_so.ListX.Rings.{Rings, Linked, head, loose, put}
use progetto_so.ListX.Operations.{
  next-first, next-mid, entry-ne-head, Linked-list_add_tail, Linked-list_add_before,
}
use progetto_so.Memory.{maxproc, Store, p_list, container_of, with_links}
use progetto_so.Pcb.{insert_from, insert_proc_q}

-- An `int` in the order of its values.
abbrev pub rank : ℕ → ℕ
rank a = (a + 2 ^ 31) % 2 ^ 32

-- The priority of a PCB.
abbrev pub prio : Store → ℕ → ℕ
prio s p = rank (s.pcb p).p_prio

head_inj : (x y : ℕ) (xs ys : List ℕ) → x ∷ xs ≡ y ∷ ys → x ≡ y
head_inj x y xs ys e = cc

module _ (key : ℕ → ℕ) (p : ℕ) where
  -- The entries up to the first one with a lower key than that of `p`, and the others.
  pub ahead : List ℕ → List ℕ
  ahead [] = []
  ahead (y ∷ ys) = if ltb (key y) (key p) then [] else y ∷ ahead ys

  pub behind : List ℕ → List ℕ
  behind [] = []
  behind (y ∷ ys) = if ltb (key y) (key p) then y ∷ ys else behind ys

-- The keys do not grow along the list.
abbrev pub IsDesc : (ℕ → ℕ) → List ℕ → Type 0
IsDesc key [] = Unit
IsDesc key (x ∷ xs) = All (λ y. key y ≤ key x) xs × IsDesc key xs

module _ (s : Store) (r : Rings) (h p : ℕ) (l : Linked s.links r) (hh : r.role h ≡ head)
    (hp : r.role (p_list p) ≡ loose) where
  abbrev Inserts : List ℕ → Option Store → Type 0
  Inserts xs o = (t : Links) × (o ≡ some (with_links s t)) × Linked t (put (p_list p) h xs r)

  insert_from-Inserts :
      (k : ℕ) (ys zs : List ℕ)
      → r.list h ≡ ys ++ map p_list zs
      → length zs < k
      → Inserts
          (ys ++ (map p_list (ahead (prio s) p zs) ++ p_list p ∷ map p_list (behind (prio s) p zs)))
          (insert_from k h p (first (map p_list zs) h) s)
  unfolding insert_from ahead behind
  insert_from-Inserts zero ys zs e f = absurd (omega arith)
  insert_from-Inserts (suc k) ys [] e f = (
    list_add_tail (p_list p) h s.links,
    rw (==_refl h),
    subst
        (λ xs.
          Linked (list_add_tail (p_list p) h s.links) (put (p_list p) h (xs ++ p_list p ∷ []) r))
        (e ∙ append-nil ys) (Linked-list_add_tail s.links r l h hh (p_list p) hp),
  )
  insert_from-Inserts (suc k) ys (z ∷ zs) e f =
      let ne = entry-ne-head s.links r l h hh (p_list z) ys (map p_list zs) e in
      let at_z : container_of (p_list z) 0 ≡ z = omega arith in
      elim (Bool-cases (ltb (prio s z) (prio s p))) [
        | inl lower ↦
            rw (==_ne (p_list z) h ne, at_z, lower)
              (
                list_add_tail (p_list p) (p_list z) s.links,
                refl,
                Linked-list_add_before s.links r l h hh (p_list p) (p_list z) ys (map p_list zs) hp
                    e,
              )
        | inr upper ↦
            rw
              (
                ==_ne (p_list z) h ne,
                at_z,
                upper,
                next-mid s.links r l h hh (p_list z) ys (map p_list zs) e,
              )
              (subst (λ xs. Inserts xs (insert_from k h p (first (map p_list zs) h) s))
                (append_assoc ys (p_list z ∷ []) (
                  map p_list (ahead (prio s) p zs) ++ p_list p ∷ map p_list (behind (prio s) p zs)))
                (insert_from-Inserts k (ys ++ p_list z ∷ []) zs
                  (e ∙ sym (append_assoc ys (p_list z ∷ []) (map p_list zs))) (omega arith)))
      ]

module _ (key : ℕ → ℕ) (p : ℕ) where
  pub ahead-behind : (ps : List ℕ) → ahead key p ps ++ behind key p ps ≡ ps
  unfolding ahead behind
  ahead-behind [] = refl
  ahead-behind (y ∷ ys) = ground (arith, ahead-behind ys)

  -- Those ahead have at least the key of `p`.
  pub All-ahead : (ps : List ℕ) → All (λ y. key p ≤ key y) (ahead key p ps)
  unfolding ahead
  All-ahead [] = tt
  All-ahead (y ∷ ys) = elim (Bool-cases (ltb (key y) (key p))) [
    | inl lower ↦ rw lower tt
    | inr upper ↦ rw upper (ground arith, All-ahead ys)
  ]

  -- In a sorted list those behind have a lower one.
  pub All-behind : (ps : List ℕ) → IsDesc key ps → All (λ y. key y < key p) (behind key p ps)
  unfolding behind
  All-behind [] d = tt
  All-behind (y ∷ ys) d = elim (Bool-cases (ltb (key y) (key p))) [
    | inl lower ↦
        rw lower
          (let lt : key y < key p = ground arith in (lt, All-map ys (λ z h. omega arith) d.0))
    | inr upper ↦ rw upper (All-behind ys d.1)
  ]

  -- The first of those behind has a lower one, in any list.
  pub behind-lower : (ps : List ℕ) (y : ℕ) (ys : List ℕ) → behind key p ps ≡ y ∷ ys → key y < key p
  unfolding behind
  behind-lower [] y ys e = cc
  behind-lower (z ∷ zs) y ys e = elim (Bool-cases (ltb (key z) (key p))) [
    | inl lower ↦
        (let lt : key z < key p = ground arith in
          subst (λ x. key x < key p) (head_inj z y zs ys (rw lower at e)) lt)
    | inr upper ↦ behind-lower zs y ys (rw upper at e)
  ]

  IsDesc-append :
      (xs ys : List ℕ)
      → All (λ x. key p ≤ key x) xs
      → All (λ y. key y < key p) ys
      → IsDesc key (xs ++ ys)
      → IsDesc key (xs ++ p ∷ ys)
  IsDesc-append [] ys hx hy d = (All-map ys (λ y h. omega arith) hy, d)
  IsDesc-append (x ∷ xs) ys hx hy d = (
    All-append (λ y. key y ≤ key x) xs (p ∷ ys) (All-left (λ y. key y ≤ key x) xs ys d.0)
        (hx.0, All-right (λ y. key y ≤ key x) xs ys d.0),
    IsDesc-append xs ys hx.1 hy d.1,
  )

  pub IsDesc-insert :
      (ps : List ℕ) → IsDesc key ps → IsDesc key (ahead key p ps ++ p ∷ behind key p ps)
  IsDesc-insert ps d =
      IsDesc-append (ahead key p ps) (behind key p ps) (All-ahead ps) (All-behind ps d)
        (subst (IsDesc key) (sym (ahead-behind ps)) d)

-- Of any queue of at most `MAXPROC` PCBs, sorted or not: `p` stands in front of the first one of
-- lower priority.
pub insert_proc_q-lands :
    (s : Store) (r : Rings) (h p : ℕ) (ps : List ℕ)
    → Linked s.links r
    → r.role h ≡ head
    → r.role (p_list p) ≡ loose
    → r.list h ≡ map p_list ps
    → length ps ≤ maxproc
    → (t : Links) × (insert_proc_q h p s ≡ some (with_links s t))
      × Linked t (put (p_list p) h (map p_list (ahead (prio s) p ps ++ p ∷ behind (prio s) p ps)) r)
unfolding insert_proc_q
insert_proc_q-lands s r h p ps l hh hp e f =
    let xs = ahead (prio s) p ps in
    let ys = behind (prio s) p ps in
    let (t, run, linked) = insert_from-Inserts s r h p l hh hp 21 [] ps e (omega arith) in
    let start : s.links.next h ≡ first (map p_list ps) h =
      next-first s.links r l h hh ∙ ap (λ zs. first zs h) e in
    (
      t,
      ap (λ a. insert_from 21 h p a s) start ∙ run,
      subst (λ zs. Linked t (put (p_list p) h zs r)) (sym (map-append p_list xs (p ∷ ys))) linked,
    )

-- What `insertProcQ` does to a queue of the PCBs `ps`: it returns, the memory differs in the links
-- alone, and the queue is `ps` with `p` between `xs` and `ys`, still sorted, where `p` is behind
-- all of its own priority.
abbrev pub Inserted : Store → Rings → ℕ → ℕ → List ℕ → Option Store → Type 0
Inserted s r h p ps o =
    (t : Links) × (xs : List ℕ) × (ys : List ℕ) × (o ≡ some (with_links s t))
    × Linked t (put (p_list p) h (map p_list (xs ++ p ∷ ys)) r)
    × (ps ≡ xs ++ ys)
    × All (λ q. prio s p ≤ prio s q) xs
    × All (λ q. prio s q < prio s p) ys
    × IsDesc (prio s) (xs ++ p ∷ ys)

-- In memory where `r` describes every list, where the list at `h` is a queue of at most `MAXPROC`
-- PCBs sorted by descending priority, and where `p` is in no queue, `insertProcQ` returns, changes
-- nothing but links, leaves every other list as it was, and puts `p` behind the PCBs of at least
-- its priority and in front of all the others, so that the queue stays sorted.
pub insert_proc_q-Inserted :
    (s : Store) (r : Rings) (h p : ℕ) (ps : List ℕ)
    → Linked s.links r
    → r.role h ≡ head
    → r.role (p_list p) ≡ loose
    → r.list h ≡ map p_list ps
    → length ps ≤ maxproc
    → IsDesc (prio s) ps
    → Inserted s r h p ps (insert_proc_q h p s)
insert_proc_q-Inserted s r h p ps l hh hp e f d =
    let (t, run, linked) = insert_proc_q-lands s r h p ps l hh hp e f in
    (
      t,
      ahead (prio s) p ps,
      behind (prio s) p ps,
      run,
      linked,
      sym (ahead-behind (prio s) p ps),
      All-ahead (prio s) p ps,
      All-behind (prio s) p ps d,
      IsDesc-insert (prio s) p ps d,
    )
