-- ===== src/Pcb/Queues.antt =====
-- The other functions of phase1/pcb.c on process queues: the head of a queue, and removals.
use mathlib.Core.List.{append_assoc, map-append}
use progetto_so.Base.{
  ℕ, zero, suc, ◌≤◌, ◌<◌, ◌≡◌, refl, sym, ap, subst, ◌∙◌, ◌≢◌, Bool, true, false, Option, none,
  some, List, [], ◌∷◌, ◌++◌, map, arith, Fresh, first, length, ==_refl, ==_ne,
}
use progetto_so.ListX.{Links, list_del}
use progetto_so.ListX.Rings.{Rings, Linked, head, take_out, Linked-remove}
use progetto_so.ListX.Operations.{
  next-first, next-mid, entry-ne-head, list_empty-nil, list_empty-cons,
}
use progetto_so.Memory.{maxproc, Store, p_list, container_of, with_links}
use progetto_so.Pcb.{empty_proc_q, head_proc_q, remove_proc_q, out_from, out_proc_q}

-- The first entry of a queue.
abbrev pub front : List ℕ → Option ℕ
front [] = none
front (p ∷ ps) = some p

abbrev pub is_empty : List ℕ → Bool
is_empty [] = true
is_empty (p ∷ ps) = false

module _ (s : Store) (r : Rings) (h : ℕ) (l : Linked s.links r) (hh : r.role h ≡ head) where
  -- `p` leaves the queue at `h`, which is `ps` then.
  abbrev pub Leaves : ℕ → List ℕ → Links → Type 0
  Leaves p ps t = Linked t (take_out (p_list p) h (map p_list ps) r)

  -- The outcome of taking the first PCB off a queue.
  abbrev pub Removed : List ℕ → Option ℕ × Store → Type 0
  Removed [] o = o ≡ (none, s)
  Removed (p ∷ ps) o = (t : Links) × (o ≡ (some p, with_links s t)) × Leaves p ps t

  -- In memory where `r` describes every list and the list at `h` is the queue `ps`,
  -- `removeProcQ` returns NULL and changes nothing if `ps` is empty; else it returns the first
  -- PCB, which is in no list then, the queue is the rest, and every other list stays.
  pub remove_proc_q-Removed :
      (ps : List ℕ) → r.list h ≡ map p_list ps → Removed ps (remove_proc_q h s)
  unfolding remove_proc_q
  remove_proc_q-Removed [] e = rw (list_empty-nil s.links r l h hh e)
  remove_proc_q-Removed (p ∷ ps) e =
      let start : s.links.next h ≡ p_list p =
        next-first s.links r l h hh ∙ ap (λ zs. first zs h) e in
      let at_p : container_of (p_list p) 0 ≡ p = omega arith in
      rw (list_empty-cons s.links r l h hh (p_list p) (map p_list ps) e, start, at_p)
        (
          list_del (p_list p) s.links,
          refl,
          Linked-remove s.links r h (p_list p) [] (map p_list ps) l hh e,
        )

  -- `headProcQ` returns the first PCB of the queue, and NULL if it is empty.
  pub head_proc_q-front : (ps : List ℕ) → r.list h ≡ map p_list ps → head_proc_q h s ≡ front ps
  unfolding head_proc_q
  head_proc_q-front [] e = rw (list_empty-nil s.links r l h hh e)
  head_proc_q-front (p ∷ ps) e =
      let start : s.links.next h ≡ p_list p =
        next-first s.links r l h hh ∙ ap (λ zs. first zs h) e in
      rw (list_empty-cons s.links r l h hh (p_list p) (map p_list ps) e, start)
        (ap some (omega arith))

  -- `emptyProcQ` tells whether the queue is empty.
  pub empty_proc_q-is_empty :
      (ps : List ℕ) → r.list h ≡ map p_list ps → empty_proc_q h s ≡ is_empty ps
  unfolding empty_proc_q
  empty_proc_q-is_empty [] e = list_empty-nil s.links r l h hh e
  empty_proc_q-is_empty (p ∷ ps) e = list_empty-cons s.links r l h hh (p_list p) (map p_list ps) e

  module _ (p : ℕ) where
    -- The loop passes the PCBs of `xs`, none of which is `p`.
    out_from-found :
        (k : ℕ) (xs ys zs : List ℕ)
        → r.list h ≡ map p_list (xs ++ (ys ++ p ∷ zs))
        → Fresh p ys
        → length (ys ++ p ∷ zs) < k
        → out_from k h p (first (map p_list (ys ++ p ∷ zs)) h) s
          ≡ some (some p, with_links s (list_del (p_list p) s.links))
    unfolding out_from
    out_from-found zero xs ys zs e f n = absurd (omega arith)
    out_from-found (suc k) xs [] zs e f n =
        let e' = e ∙ map-append p_list xs (p ∷ zs) in
        let ne = entry-ne-head s.links r l h hh (p_list p) (map p_list xs) (map p_list zs) e' in
        let at_p : container_of (p_list p) 0 ≡ p = omega arith in
        rw (==_ne (p_list p) h ne, at_p, ==_refl p)
    out_from-found (suc k) xs (y ∷ ys) zs e f n =
        let rest = ys ++ p ∷ zs in
        let e' = e ∙ map-append p_list xs (y ∷ rest) in
        let ne = entry-ne-head s.links r l h hh (p_list y) (map p_list xs) (map p_list rest) e' in
        let at_y : container_of (p_list y) 0 ≡ y = omega arith in
        let other : y ≢ p = λ q. f.0 (sym q) in
        rw
          (
            ==_ne (p_list y) h ne,
            at_y,
            ==_ne y p other,
            next-mid s.links r l h hh (p_list y) (map p_list xs) (map p_list rest) e',
          )
          (out_from-found k (xs ++ y ∷ []) ys zs
            (e ∙ ap (map p_list) (sym (append_assoc xs (y ∷ []) rest))) f.1 (omega arith))

    out_from-missing :
        (k : ℕ) (xs ys : List ℕ)
        → r.list h ≡ map p_list (xs ++ ys)
        → Fresh p ys
        → length ys < k
        → out_from k h p (first (map p_list ys) h) s ≡ some (none, s)
    unfolding out_from
    out_from-missing zero xs ys e f n = absurd (omega arith)
    out_from-missing (suc k) xs [] e f n = rw (==_refl h)
    out_from-missing (suc k) xs (y ∷ ys) e f n =
        let e' = e ∙ map-append p_list xs (y ∷ ys) in
        let ne = entry-ne-head s.links r l h hh (p_list y) (map p_list xs) (map p_list ys) e' in
        let at_y : container_of (p_list y) 0 ≡ y = omega arith in
        let other : y ≢ p = λ q. f.0 (sym q) in
        rw
          (
            ==_ne (p_list y) h ne,
            at_y,
            ==_ne y p other,
            next-mid s.links r l h hh (p_list y) (map p_list xs) (map p_list ys) e',
          )
          (out_from-missing k (xs ++ y ∷ []) ys
            (e ∙ ap (map p_list) (sym (append_assoc xs (y ∷ []) ys))) f.1 (omega arith))

    -- In memory where `r` describes every list and the list at `h` is a queue of at most
    -- `MAXPROC` PCBs that holds `p` behind the PCBs `ys`, `outProcQ` returns `p`, which is in no
    -- list then, the queue is what stood before and behind it, and every other list stays.
    pub out_proc_q-Leaves :
        (ys zs : List ℕ)
        → r.list h ≡ map p_list (ys ++ p ∷ zs)
        → Fresh p ys
        → length (ys ++ p ∷ zs) ≤ maxproc
        → (t : Links) × (out_proc_q h p s ≡ some (some p, with_links s t)) × Leaves p (ys ++ zs) t
    unfolding out_proc_q
    out_proc_q-Leaves ys zs e f n =
        let start : s.links.next h ≡ first (map p_list (ys ++ p ∷ zs)) h =
          next-first s.links r l h hh ∙ ap (λ xs. first xs h) e in
        (
          list_del (p_list p) s.links,
          ap (λ a. out_from 21 h p a s) start ∙ out_from-found 21 [] ys zs e f (omega arith),
          subst (λ xs. Linked (list_del (p_list p) s.links) (take_out (p_list p) h xs r))
              (sym (map-append p_list ys zs))
              (Linked-remove s.links r h (p_list p) (map p_list ys) (map p_list zs) l hh
                (e ∙ map-append p_list ys (p ∷ zs))),
        )

    -- Of a queue of at most `MAXPROC` PCBs that does not hold `p`, `outProcQ` returns NULL and
    -- changes nothing.
    pub out_proc_q-missing :
        (ps : List ℕ)
        → r.list h ≡ map p_list ps
        → Fresh p ps
        → length ps ≤ maxproc
        → out_proc_q h p s ≡ some (none, s)
    unfolding out_proc_q
    out_proc_q-missing ps e f n =
        let start : s.links.next h ≡ first (map p_list ps) h =
          next-first s.links r l h hh ∙ ap (λ xs. first xs h) e in
        ap (λ a. out_from 21 h p a s) start ∙ out_from-missing 21 [] ps e f (omega arith)
