-- ===== src/Pcb/Alloc.antt =====
-- `initPcbs`, `freePcb` and `allocPcb` of phase1/pcb.c: the list of free PCBs.
use progetto_so.Base.{
  ℕ, zero, suc, ◌+◌, ◌%◌, ◌^◌, ◌≤◌, ◌≡◌, refl, sym, ap, ◌∙◌, ◌≢◌, Option, none, some, List, [], ◌∷◌,
  map, arith, All, first, write_self, write_ne,
}
use progetto_so.ListX.{Links, init_list_head}
use progetto_so.ListX.Rings.{
  Rings, Linked, head, loose, in_ring, put, take_out, new_head, loose-ne-head, loose-ne-in_ring,
  Linked-remove,
}
use progetto_so.ListX.Operations.{
  next-first, Linked-init_loose, Linked-init_head, Linked-list_add, list_empty-nil, list_empty-cons,
}
use progetto_so.Memory.{
  maxproc, Store, p_list, p_child, p_sib, pcb_free_h, container_of, with_links,
}
use progetto_so.Pcb.{free_pcb, free_from, init_pcbs, reset_pcb, alloc_taken, alloc_pcb}

-- `freePcb` puts a PCB that is in no queue in front of the free list.
pub free_pcb-Linked :
    (s : Store) (r : Rings) (p : ℕ)
    → Linked s.links r
    → r.role pcb_free_h ≡ head
    → r.role (p_list p) ≡ loose
    → Linked (free_pcb p s).links (put (p_list p) pcb_free_h (p_list p ∷ r.list pcb_free_h) r)
unfolding free_pcb
free_pcb-Linked s r p l hh hp = Linked-list_add s.links r l pcb_free_h hh (p_list p) hp

-- The lists after the PCBs from `i` have been freed, `k` of them.
unfoldable pub freed : ℕ → ℕ → Rings → Rings
freed zero i r = r
freed (suc k) i r = freed k (i + 1) (put (p_list i) pcb_free_h (p_list i ∷ r.list pcb_free_h) r)

abbrev pub Untouched : Store → Store → Type 0
Untouched s t = (t.pcb ≡ s.pcb) × (t.s_key ≡ s.s_key) × (t.next_pid ≡ s.next_pid)

free_from-Linked :
    (k i : ℕ) (s : Store) (r : Rings)
    → Linked s.links r
    → r.role pcb_free_h ≡ head
    → ((j : ℕ) → i ≤ j → r.role (p_list j) ≡ loose)
    → Linked (free_from k i s).links (freed k i r) × Untouched s (free_from k i s)
unfolding free_from freed free_pcb
free_from-Linked zero i s r l hh hf = (l, (refl, refl, refl))
free_from-Linked (suc k) i s r l hh hf =
    free_from-Linked k (i + 1) (free_pcb i s)
      (put (p_list i) pcb_free_h (p_list i ∷ r.list pcb_free_h) r)
      (Linked-list_add s.links r l pcb_free_h hh (p_list i) (hf i (omega arith)))
      (write_ne r.role (p_list i) (in_ring pcb_free_h) pcb_free_h (omega arith) ∙ hh)
      (λ j q.
        write_ne r.role (p_list i) (in_ring pcb_free_h) (p_list j) (omega arith)
        ∙ hf j (omega arith))

-- The memory before the boot: no list yet.
abbrev pub no_rings : Rings
no_rings = record { role = λ _. loose; list = λ _. [] }

-- The lists after `initPcbs`.
unfoldable pub free_rings : Rings
unfolding freed
free_rings = freed maxproc 0 (new_head pcb_free_h no_rings)

-- The indices of `pcbFree_table`, the last one first.
abbrev pub table : List ℕ
table = 19 ∷ 18 ∷ 17 ∷ 16 ∷ 15 ∷ 14 ∷ 13 ∷ 12 ∷ 11 ∷ 10 ∷ 9 ∷ 8 ∷ 7 ∷ 6 ∷ 5 ∷ 4 ∷ 3 ∷ 2 ∷ 1 ∷ 0 ∷ []

pub no_rings-Linked : (s : Links) → Linked s no_rings
no_rings-Linked s h e = absurd (loose-ne-head e)

-- Whatever memory holds before it, `initPcbs` leaves a well-formed free list of all the PCBs of the
-- table, each once, the last one first, and touches nothing but links.
pub init_pcbs-free :
    (s : Store)
    → Linked (init_pcbs s).links free_rings
      × (free_rings.list pcb_free_h ≡ map p_list table)
      × Untouched s (init_pcbs s)
unfolding init_pcbs free_rings
init_pcbs-free s =
    let (l, same) =
      free_from-Linked 20 0 (with_links s (init_list_head pcb_free_h s.links))
        (new_head pcb_free_h no_rings)
        (Linked-init_head s.links no_rings (no_rings-Linked s.links) pcb_free_h
          (λ k. loose-ne-in_ring k))
        refl (λ j q. write_ne no_rings.role pcb_free_h head (p_list j) (omega arith)) in
    (l, refl, same)

-- The outcome of `allocPcb` on a free list `ps`.
module _ (s : Store) (r : Rings) where
  -- The lists once `p` is taken and its children are initialised.
  abbrev pub taken : ℕ → List ℕ → Rings
  taken p ps = new_head (p_child p) (take_out (p_list p) pcb_free_h (map p_list ps) r)

  abbrev pub Allocated : List ℕ → Option ℕ × Store → Type 0
  Allocated [] o = o ≡ (none, s)
  Allocated (p ∷ ps) o =
      (t : Store) × (o ≡ (some p, t))
      × Linked t.links (taken p ps)
      × (t.pcb p ≡ reset_pcb s.next_pid)
      × ((q : ℕ) → q ≢ p → t.pcb q ≡ s.pcb q)
      × (t.s_key ≡ s.s_key)
      × (t.next_pid ≡ (s.next_pid + 1) % 2 ^ 32)

  -- In memory where `r` describes every list, and no free PCB has its link fields for the tree in
  -- a list, `allocPcb` returns NULL and changes nothing if the free list is empty. Else it takes
  -- the first PCB off the free list, which keeps the rest; the PCB is in no list, its list of
  -- children is empty, each of its fields is reset and its id is the counter's, which moves on; all
  -- other PCBs, keys and lists stay.
  pub alloc_pcb-Allocated :
      (ps : List ℕ)
      → Linked s.links r
      → r.role pcb_free_h ≡ head
      → r.list pcb_free_h ≡ map p_list ps
      → All (λ p. ((k : ℕ) → r.role (p_child p) ≢ in_ring k) × (r.role (p_sib p) ≡ loose)) ps
      → Allocated ps (alloc_pcb s)
  unfolding alloc_pcb alloc_taken
  alloc_pcb-Allocated [] l hh e out = rw (list_empty-nil s.links r l pcb_free_h hh e)
  alloc_pcb-Allocated (p ∷ ps) l hh e out =
      let start : s.links.next pcb_free_h ≡ p_list p =
        next-first s.links r l pcb_free_h hh ∙ ap (λ xs. first xs pcb_free_h) e in
      let at_p : container_of (p_list p) 0 ≡ p = omega arith in
      let r₁ = take_out (p_list p) pcb_free_h (map p_list ps) r in
      let l₁ = Linked-remove s.links r pcb_free_h (p_list p) [] (map p_list ps) l hh e in
      let l₂ = Linked-init_loose _ r₁ l₁ (p_list p) (write_self r.role (p_list p) loose) in
      let l₃ =
        Linked-init_head _ r₁ l₂ (p_child p) (λ k q.
          out.0.0 k (sym (write_ne r.role (p_list p) loose (p_child p) (omega arith)) ∙ q)) in
      let l₄ = Linked-init_loose _ (taken p ps) l₃ (p_sib p) (
        write_ne r₁.role (p_child p) head (p_sib p) (omega arith)
        ∙ (write_ne r.role (p_list p) loose (p_sib p) (omega arith) ∙ out.0.1)) in
      rw (list_empty-cons s.links r l pcb_free_h hh (p_list p) (map p_list ps) e, start, at_p)
        (
          alloc_taken p s,
          refl,
          l₄,
          write_self s.pcb p (reset_pcb s.next_pid),
          (λ q ne. write_ne s.pcb p (reset_pcb s.next_pid) q ne),
          refl,
          refl,
        )
