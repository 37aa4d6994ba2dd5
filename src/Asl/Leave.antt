-- ===== src/Asl/Leave.antt =====
-- `removeBlocked` and `outBlocked` of phase1/asl.c: a process leaves the queue of its descriptor.
use progetto_so.Base.{
  ℕ, ◌≡◌, sym, subst, ◌∙◌, inl, inr, List, ◌∷◌, ◌++◌, map, arith, All-map, All-append, All-left,
  All-right, length-append, eq_cases, write, write_self, write_ne,
}
use progetto_so.ListX.{Links}
use progetto_so.ListX.Rings.{Rings, Linked, loose, take_out}
use progetto_so.Memory.{
  Store, p_list, p_child, p_sib, s_procq, semd_h, semd_free_h, pcb_free_h, ready_queue, with_links,
}
use progetto_so.Asl.Inv.{IsCore, IsQueue}
use progetto_so.Asl.Kept.{Kept}

module _ {s : Store} {r : Rings} {js fs : List ℕ} {queue : ℕ → List ℕ} (v : IsCore s r js fs queue)
    (p j : ℕ) (us ws : List ℕ) (q : IsQueue s r j (us ++ p ∷ ws)) (t : Links) where
  abbrev pub left : List ℕ
  left = us ++ ws

  abbrev pub left_rings : Rings
  left_rings = take_out (p_list p) (s_procq j) (map p_list left) r

  left-IsQueue :
      (i : ℕ)
      → IsQueue s r i (queue i)
      → IsQueue (with_links s t) left_rings i (write queue j left i)
  left-IsQueue i u = elim (eq_cases i j) [
    | inl e ↦
        subst (λ x. IsQueue (with_links s t) left_rings x (write queue j left x)) (sym e)
          (subst (IsQueue (with_links s t) left_rings j) (sym (write_self queue j left)) (record {
            at_head = write_ne r.role (p_list p) loose (s_procq j) (omega arith) ∙ q.at_head;
            entries = write_self r.list (s_procq j) (map p_list left);
            named =
                All-append (λ x. (s.pcb x).p_sem_add ≡ s.s_key j) us ws
                  (All-left (λ x. (s.pcb x).p_sem_add ≡ s.s_key j) us (p ∷ ws) q.named)
                  (All-right (λ x. (s.pcb x).p_sem_add ≡ s.s_key j) us (p ∷ ws) q.named).1;
            small =
                let n = q.small in omega (arith, length-append us ws, length-append us (p ∷ ws));
          }))
    | inr ne ↦
        subst (IsQueue (with_links s t) left_rings i) (sym (write_ne queue j left i ne)) (record {
          at_head = write_ne r.role (p_list p) loose (s_procq i) (omega arith) ∙ u.at_head;
          entries =
              write_ne r.list (s_procq j) (map p_list left) (s_procq i) (omega arith) ∙ u.entries;
          named = u.named;
          small = u.small;
        })
  ]

  -- A process that leaves a queue, wherever it stands in it, keeps the list.
  pub left-IsCore :
      Linked t left_rings → IsCore (with_links s t) left_rings js fs (write queue j left)
  left-IsCore l = record {
    linked = l;
    active_head = write_ne r.role (p_list p) loose semd_h (omega arith) ∙ v.active_head;
    free_head = write_ne r.role (p_list p) loose semd_free_h (omega arith) ∙ v.free_head;
    active = write_ne r.list (s_procq j) (map p_list left) semd_h (omega arith) ∙ v.active;
    free = write_ne r.list (s_procq j) (map p_list left) semd_free_h (omega arith) ∙ v.free;
    sorted = v.sorted;
    bounded = v.bounded;
    queues = All-map js left-IsQueue v.queues;
    sentinels = λ i k e.
        v.sentinels i k (sym (write_ne r.role (p_list p) loose (s_procq i) (omega arith)) ∙ e);
  }

  pub left-Kept : Kept p r left_rings
  left-Kept = record {
    child_role = λ i. write_ne r.role (p_list p) _ (p_child i) (omega arith);
    child_list = λ i. write_ne r.list (s_procq j) _ (p_child i) (omega arith);
    sib_role = λ i. write_ne r.role (p_list p) _ (p_sib i) (omega arith);
    list_role = λ i ne. write_ne r.role (p_list p) _ (p_list i) (omega arith);
    ready_role = write_ne r.role (p_list p) _ ready_queue (omega arith);
    ready_list = write_ne r.list (s_procq j) _ ready_queue (omega arith);
    free_role = write_ne r.role (p_list p) _ pcb_free_h (omega arith);
    free_list = write_ne r.list (s_procq j) _ pcb_free_h (omega arith);
  }
