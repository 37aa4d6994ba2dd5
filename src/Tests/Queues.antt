-- ===== src/Tests/Queues.antt =====
-- The theorems on lists, process queues and the process tree at concrete memories.
use progetto_so.Base.{◌≡◌, refl, some, [], ◌∷◌, map, arith}
use progetto_so.ListX.{list_del}
use progetto_so.ListX.Rings.{Linked, put, take_out, loose-ne-in_ring, Linked-remove}
use progetto_so.Memory.{Store, p_list, p_child, p_sib, ready_queue, pcb_free_h}
use progetto_so.Pcb.{init_pcbs, insert_proc_q, head_proc_q, alloc_pcb, insert_child, out_child}
use progetto_so.Pcb.Insert.{Inserted, insert_proc_q-Inserted}
use progetto_so.Pcb.Queues.{head_proc_q-front}
use progetto_so.Pcb.Alloc.{
  Untouched, free_rings, table, init_pcbs-free, Allocated, alloc_pcb-Allocated,
}
use progetto_so.Pcb.Tree.{IsTree, Reparented, Orphaned, insert_child-IsTree, out_child-Orphaned}
use progetto_so.Tests.Data.{
  queued_links, queued_rings, queued-Linked, queued, one_head-Linked, one_head_rings, one_free,
  one_free_rings, one_free-Linked, childless, childless-IsTree, parental, parental_rings,
  parental-Linked, parental-IsTree,
}

Linked-remove_example :
    Linked
      (list_del (p_list 7) queued_links)
      (take_out (p_list 7) ready_queue (p_list 4 ∷ []) queued_rings)
Linked-remove_example =
    Linked-remove queued_links queued_rings ready_queue (p_list 7) [] (p_list 4 ∷ []) queued-Linked
      refl refl

insert_proc_q-Inserted_example :
    Inserted queued queued_rings ready_queue 5 (7 ∷ 4 ∷ []) (insert_proc_q ready_queue 5 queued)
insert_proc_q-Inserted_example =
    insert_proc_q-Inserted queued queued_rings ready_queue 5 (7 ∷ 4 ∷ []) queued-Linked refl refl
      refl (omega arith) (omega arith)

head_proc_q-front_example : head_proc_q ready_queue queued ≡ some 7
head_proc_q-front_example =
    head_proc_q-front queued queued_rings ready_queue queued-Linked refl (7 ∷ 4 ∷ []) refl

init_pcbs-free_example :
    Linked (init_pcbs queued).links free_rings
    × (free_rings.list pcb_free_h ≡ map p_list table)
    × Untouched queued (init_pcbs queued)
init_pcbs-free_example = init_pcbs-free queued

alloc_pcb-Allocated_example : Allocated one_free one_free_rings (3 ∷ []) (alloc_pcb one_free)
alloc_pcb-Allocated_example =
    alloc_pcb-Allocated one_free one_free_rings (3 ∷ []) one_free-Linked refl refl
      (((λ k. loose-ne-in_ring k), refl), tt)

insert_child-IsTree_example :
    Linked
      (insert_child 2 6 childless).links
      (put (p_sib 6) (p_child 2) (p_sib 6 ∷ []) (one_head_rings (p_child 2)))
    × IsTree
        (insert_child 2 6 childless)
        (put (p_sib 6) (p_child 2) (p_sib 6 ∷ []) (one_head_rings (p_child 2))).role
    × Reparented 6 (some 2) childless (insert_child 2 6 childless)
insert_child-IsTree_example =
    insert_child-IsTree childless (one_head_rings (p_child 2)) (one_head-Linked (p_child 2))
      childless-IsTree 2 6 [] refl refl refl

out_child-Orphaned_example :
    (t : Store) × (out_child 6 parental ≡ (some 6, t))
    × Orphaned parental parental_rings parental-Linked parental-IsTree 6 2 [] t
out_child-Orphaned_example =
    out_child-Orphaned parental parental_rings parental-Linked parental-IsTree 6 2 [] [] refl refl
      refl
