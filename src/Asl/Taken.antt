-- ===== src/Asl/Taken.antt =====
-- The lists while `insertBlocked` of phase1/asl.c moves a descriptor from the free list to the
-- active one.
use progetto_so.Base.{
  ℕ, ◌≡◌, sym, subst, ◌∙◌, ◌≢◌, none, List, [], ◌∷◌, ◌++◌, map, arith, All-map, Fresh, write,
  write_self, write_ne,
}
use progetto_so.ListX.{Links, init_list_head, list_del}
use progetto_so.ListX.Rings.{
  Rings, Linked, head, loose, in_ring, put, take_out, new_head, Fresh-of_role, Linked-remove,
  in_ring-injective,
}
use progetto_so.ListX.Operations.{Linked-init_loose, Linked-init_head, role-mid}
use progetto_so.Memory.{Store, s_procq, s_link, semd_h, semd_free_h}
use progetto_so.Asl.Inv.{IsCore, IsQueue, find_key}
use progetto_so.Asl.Order.{below, above}

-- A free descriptor is not in use.
Fresh-s_link : (j : ℕ) (js : List ℕ) → Fresh (s_link j) (map s_link js) → Fresh j js
Fresh-s_link j [] f = tt
Fresh-s_link j (i ∷ js) f =
    ((let h : s_link j ≢ s_link i = f.0 in omega arith), Fresh-s_link j js f.1)

module _ {s : Store} {r : Rings} {js fs : List ℕ} {j : ℕ} {queue : ℕ → List ℕ}
    (v : IsCore s r js (j ∷ fs) queue) (k : ℕ) (missing : find_key s.s_key k js ≡ none) where
  -- The descriptors in use once `j` is.
  abbrev pub in_use : List ℕ
  in_use = below s.s_key k js ++ j ∷ above s.s_key k js

  abbrev pub taken_rings : Rings
  taken_rings = take_out (s_link j) semd_free_h (map s_link fs) r

  abbrev pub ready_rings : Rings
  ready_rings = new_head (s_procq j) taken_rings

  abbrev pub in_use_rings : Rings
  in_use_rings = put (s_link j) semd_h (map s_link in_use) ready_rings

  pub Fresh-in_use : Fresh j js
  Fresh-in_use = Fresh-s_link j js (
      subst (Fresh (s_link j)) v.active (
        Fresh-of_role r.role (s_link j) semd_h (r.list semd_h)
          (λ e.
            (let q : semd_h ≡ semd_free_h = in_ring-injective semd_h semd_free_h (
                sym e
                ∙ role-mid s.links r v.linked semd_free_h v.free_head (s_link j) [] (map s_link fs)
                    v.free) in
              omega arith))
          (v.linked semd_h v.active_head).members))

  pub kept-IsQueue :
      (t : Links) (i : ℕ)
      → j ≢ i
      → IsQueue s r i (queue i)
      → IsQueue
          (record s { links = t; s_key = write s.s_key j k })
          in_use_rings
          i
          (write queue j [] i)
  kept-IsQueue t i ne u =
      let ni : i ≢ j = λ e. ne (sym e) in
      subst (IsQueue (record s { links = t; s_key = write s.s_key j k }) in_use_rings i)
        (sym (write_ne queue j [] i ni))
        (record {
          at_head =
              write_ne ready_rings.role (s_link j) (in_ring semd_h) (s_procq i) (omega arith)
              ∙ (write_ne taken_rings.role (s_procq j) head (s_procq i) (omega arith)
                  ∙ (write_ne r.role (s_link j) loose (s_procq i) (omega arith) ∙ u.at_head));
          entries =
              write_ne ready_rings.list semd_h (map s_link in_use) (s_procq i) (omega arith)
              ∙ (write_ne taken_rings.list (s_procq j) [] (s_procq i) (omega arith)
                  ∙ (write_ne r.list semd_free_h (map s_link fs) (s_procq i) (omega arith)
                      ∙ u.entries));
          named = All-map (queue i) (λ p e. e ∙ sym (write_ne s.s_key j k i ni)) u.named;
          small = u.small;
        })

  pub added-IsQueue :
      (t : Links)
      → IsQueue
          (record s { links = t; s_key = write s.s_key j k })
          in_use_rings
          j
          (write queue j [] j)
  added-IsQueue t =
      subst (IsQueue (record s { links = t; s_key = write s.s_key j k }) in_use_rings j)
        (sym (write_self queue j []))
        (record {
          at_head =
              write_ne ready_rings.role (s_link j) (in_ring semd_h) (s_procq j) (omega arith)
              ∙ write_self taken_rings.role (s_procq j) head;
          entries =
              write_ne ready_rings.list semd_h (map s_link in_use) (s_procq j) (omega arith)
              ∙ write_self taken_rings.list (s_procq j) [];
          named = tt;
          small = omega arith;
        })

  abbrev pub taken_links : Links
  taken_links = init_list_head (s_link j) (init_list_head (s_procq j) (list_del (s_link j) s.links))

  pub taken-Linked : Linked taken_links ready_rings
  taken-Linked =
      let l₁ =
        Linked-remove s.links r semd_free_h (s_link j) [] (map s_link fs) v.linked v.free_head
          v.free in
      let l₂ = Linked-init_head (list_del (s_link j) s.links) taken_rings l₁ (s_procq j) (λ i e.
        v.sentinels j i (sym (write_ne r.role (s_link j) loose (s_procq j) (omega arith)) ∙ e)) in
      Linked-init_loose (init_list_head (s_procq j) (list_del (s_link j) s.links)) ready_rings l₂
        (s_link j)
        (write_ne taken_rings.role (s_procq j) head (s_link j) (omega arith)
          ∙ write_self r.role (s_link j) loose)

  abbrev pub created : Links → Store
  created t = record s { links = t; s_key = write s.s_key j k }
