-- ===== src/Asl/Release.antt =====
-- `removeBlocked` and `outBlocked` of phase1/asl.c: a descriptor whose queue has become empty goes
-- back to the free list.
use mathlib.Core.List.{map-append}
use progetto_so.Base.{
  ℕ, ◌<◌, ◌≡◌, refl, sym, ap, subst, ◌∙◌, ◌≢◌, inl, inr, none, some, List, [], ◌∷◌, ◌++◌, map,
  arith, All-map, All-append, All-left, All-right, length-append, ◌==◌, ==_refl, ==_ne, Bool-cases,
  eq_cases, if◌then◌else◌, write_self, write_ne,
}
use progetto_so.ListX.{list_add, list_del}
use progetto_so.ListX.Rings.{Rings, Linked, loose, put, take_out, Linked-remove}
use progetto_so.ListX.Operations.{Linked-list_add}
use progetto_so.Memory.{
  Store, p_list, p_child, p_sib, s_procq, s_link, semd_h, semd_free_h, pcb_free_h, ready_queue,
  with_links,
}
use progetto_so.Asl.Inv.{IsAsc, IsCore, IsQueue, find_key, find_key-above, some_inj, some-ne-none}
use progetto_so.Asl.Kept.{Kept}

IsAsc-remove :
    (key : ℕ → ℕ) (j : ℕ) (xs ys : List ℕ) → IsAsc key (xs ++ j ∷ ys) → IsAsc key (xs ++ ys)
IsAsc-remove key j [] ys d = d.1
IsAsc-remove key j (x ∷ xs) ys d = (
  All-append (λ y. key x < key y) xs ys (All-left (λ y. key x < key y) xs (j ∷ ys) d.0)
      (All-right (λ y. key x < key y) xs (j ∷ ys) d.0).1,
  IsAsc-remove key j xs ys d.1,
)

-- The search in the list without the descriptor `j`.
pub find_key-remove :
    (key : ℕ → ℕ) (j : ℕ) (xs ys : List ℕ)
    → IsAsc key (xs ++ j ∷ ys)
    → (i : ℕ)
    → find_key key i (xs ++ ys) ≡ (if i == key j then none else find_key key i (xs ++ j ∷ ys))
unfolding find_key
find_key-remove key j [] ys d i = elim (eq_cases i (key j)) [
  | inl e ↦ rw (e, ==_refl (key j)) (find_key-above key (key j) ys d.0)
  | inr ne ↦ rw (==_ne i (key j) ne, ==_ne (key j) i (λ e. ne (sym e)))
]
find_key-remove key j (x ∷ xs) ys d i =
    let lt : key x < key j = (All-right (λ y. key x < key y) xs (j ∷ ys) d.0).0 in
    ground (arith, find_key-remove key j xs ys d.1 i)

-- Where a descriptor stands in the list.
pub find_key-split :
    (key : ℕ → ℕ) (k j : ℕ) (js : List ℕ)
    → find_key key k js ≡ some j
    → (xs : List ℕ) × (ys : List ℕ) × (js ≡ xs ++ j ∷ ys)
unfolding find_key
find_key-split key k j [] e = absurd (some-ne-none (sym e))
find_key-split key k j (x ∷ js) e = elim (Bool-cases (key x == k)) [
  | inl hit ↦ ([], js, ap (λ y. y ∷ js) (some_inj (rw hit at e)))
  | inr miss ↦
      let (xs, ys, q) = find_key-split key k j js (rw miss at e) in
      (x ∷ xs, ys, ap (λ zs. x ∷ zs) q)
]

module _ {s : Store} {r : Rings} {fs : List ℕ} {queue : ℕ → List ℕ} (xs ys : List ℕ) (j : ℕ)
    (v : IsCore s r (xs ++ j ∷ ys) fs queue) where
  abbrev pub released_rings : Rings
  released_rings =
      put (s_link j) semd_free_h (s_link j ∷ r.list semd_free_h)
        (take_out (s_link j) semd_h (map s_link (xs ++ ys)) r)

  abbrev pub released : Store
  released = with_links s (list_add (s_link j) semd_free_h (list_del (s_link j) s.links))

  pub released_role : (a : ℕ) → a ≢ s_link j → released_rings.role a ≡ r.role a
  released_role a h = ground arith

  released_list : (a : ℕ) → a ≢ semd_h → a ≢ semd_free_h → released_rings.list a ≡ r.list a
  released_list a h f = ground arith

  released-IsQueue : (i : ℕ) → IsQueue s r i (queue i) → IsQueue released released_rings i (queue i)
  released-IsQueue i u = record {
    at_head = released_role (s_procq i) (omega arith) ∙ u.at_head;
    entries = released_list (s_procq i) (omega arith) (omega arith) ∙ u.entries;
    named = u.named;
    small = u.small;
  }

  -- A descriptor goes back to the free list.
  pub released-IsCore : IsCore released released_rings (xs ++ ys) (j ∷ fs) queue
  released-IsCore = record {
    linked =
        let l =
          Linked-remove s.links r semd_h (s_link j) (map s_link xs) (map s_link ys) v.linked
            v.active_head (v.active ∙ map-append s_link xs (j ∷ ys)) in
        let l' : Linked (list_del (s_link j) s.links)
            (take_out (s_link j) semd_h (map s_link (xs ++ ys)) r) =
          subst (λ zs. Linked (list_del (s_link j) s.links) (take_out (s_link j) semd_h zs r))
            (sym (map-append s_link xs ys)) l in
        Linked-list_add (list_del (s_link j) s.links)
          (take_out (s_link j) semd_h (map s_link (xs ++ ys)) r) l' semd_free_h
          (write_ne r.role (s_link j) loose semd_free_h (omega arith) ∙ v.free_head) (s_link j)
          (write_self r.role (s_link j) loose);
    active_head = released_role semd_h (omega arith) ∙ v.active_head;
    free_head = released_role semd_free_h (omega arith) ∙ v.free_head;
    active = refl;
    free = ap (λ zs. s_link j ∷ zs) v.free;
    sorted = IsAsc-remove s.s_key j xs ys v.sorted;
    bounded = let b = v.bounded in omega (arith, length-append xs ys, length-append xs (j ∷ ys));
    queues =
        All-append (λ i. IsQueue released released_rings i (queue i)) xs ys
          (All-map xs released-IsQueue
            (All-left (λ i. IsQueue s r i (queue i)) xs (j ∷ ys) v.queues))
          (All-map ys released-IsQueue
            (All-right (λ i. IsQueue s r i (queue i)) xs (j ∷ ys) v.queues).1);
    sentinels = λ i k e. v.sentinels i k (sym (released_role (s_procq i) (omega arith)) ∙ e);
  }

  pub released-Kept : (p : ℕ) → Kept p r released_rings
  released-Kept p = record {
    child_role = λ i. released_role (p_child i) (omega arith);
    child_list = λ i. released_list (p_child i) (omega arith) (omega arith);
    sib_role = λ i. released_role (p_sib i) (omega arith);
    list_role = λ i ne. released_role (p_list i) (omega arith);
    ready_role = released_role ready_queue (omega arith);
    ready_list = released_list ready_queue (omega arith) (omega arith);
    free_role = released_role pcb_free_h (omega arith);
    free_list = released_list pcb_free_h (omega arith) (omega arith);
  }
