-- ===== src/Tests/Semaphores.antt =====
-- The theorems on the active semaphore list at concrete memories. The semaphore 1000 is a word that
-- no list node has.
use progetto_so.Base.{◌≡◌, refl, ◌∙◌, ap, sym, true, some, [], ◌∷◌, ◌++◌, inl, ◌≢◌, arith, write_ne}
use progetto_so.ListX.{init_list_head}
use progetto_so.ListX.Rings.{Linked, Rings, head, loose, new_head, loose-ne-in_ring}
use progetto_so.ListX.Operations.{Linked-init_head}
use progetto_so.Memory.{Pcb, Store, p_list, s_procq, semd_h, semd_free_h, with_links}
use progetto_so.Pcb.Alloc.{no_rings, no_rings-Linked, table}
use progetto_so.Asl.{init_asl, get_semd, insert_blocked, remove_blocked, out_blocked, head_blocked}
use progetto_so.Pcb.Queues.{front}
use progetto_so.Asl.Inv.{IsAsl, find_key, waiting}
use progetto_so.Asl.Search.{get_semd-find_key, head_blocked-waiting}
use progetto_so.Asl.Init.{NoAsl, asl_rings, semds_freed, init_asl-IsAsl}
use progetto_so.Asl.Block.{Waits, insert_blocked-Waits, insert_blocked-full}
use progetto_so.Asl.Remove.{Left, Unblocked, remove_blocked-Unblocked, out_blocked-Left}
use progetto_so.Tests.Data.{blank, loops}

blank-NoAsl : NoAsl blank no_rings
blank-NoAsl = record {
  linked = no_rings-Linked loops;
  links = λ j. refl;
  sentinels = λ j k. loose-ne-in_ring k;
  active = λ k. loose-ne-in_ring k;
  free = λ k. loose-ne-in_ring k;
}

init_asl-IsAsl_example :
    IsAsl (init_asl blank) (asl_rings no_rings) [] table (λ _. [])
    × ((init_asl blank).pcb ≡ blank.pcb)
    × ((init_asl blank).next_pid ≡ blank.next_pid)
init_asl-IsAsl_example = init_asl-IsAsl blank no_rings blank-NoAsl

pub started : IsAsl (init_asl blank) (asl_rings no_rings) [] table (λ _. [])
started = (init_asl-IsAsl blank no_rings blank-NoAsl).0

pub loose_pcb : (asl_rings no_rings).role (p_list 7) ≡ loose
unfolding semds_freed
loose_pcb = refl

pub some_free : table ≢ []
some_free e = cc

-- The PCB 7 waits at the semaphore 1000.
insert_blocked-Waits_example :
    Waits
      (init_asl blank)
      (asl_rings no_rings)
      []
      table
      (λ _. [])
      1000
      7
      (insert_blocked 1000 7 (init_asl blank))
unfolding find_key
insert_blocked-Waits_example =
    insert_blocked-Waits started 1000 7 loose_pcb (omega arith) (inl some_free)

one_waits :
    Waits
      (init_asl blank)
      (asl_rings no_rings)
      []
      table
      (λ _. [])
      1000
      7
      (insert_blocked 1000 7 (init_asl blank))
unfolding find_key
one_waits = insert_blocked-Waits started 1000 7 loose_pcb (omega arith) (inl some_free)

one_waiting : waiting one_waits.store one_waits.active one_waits.queues 1000 ≡ [] ++ 7 ∷ []
unfolding find_key
one_waiting = one_waits.waits 1000

get_semd-find_key_example :
    get_semd 1000 one_waits.store ≡ some (find_key one_waits.store.s_key 1000 one_waits.active)
get_semd-find_key_example = get_semd-find_key one_waits.valid 1000

head_blocked-waiting_example :
    head_blocked 1000 one_waits.store
    ≡ some (front (waiting one_waits.store one_waits.active one_waits.queues 1000))
head_blocked-waiting_example = head_blocked-waiting one_waits.valid 1000

remove_blocked-Unblocked_example :
    Unblocked one_waits.valid 1000
      (waiting one_waits.store one_waits.active one_waits.queues 1000)
      (remove_blocked 1000 one_waits.store)
remove_blocked-Unblocked_example = remove_blocked-Unblocked one_waits.valid 1000

out_blocked-Left_example :
    (t : Store) × (out_blocked 7 one_waits.store ≡ some (some 7, t))
    × Left one_waits.store one_waits.rings one_waits.active one_waits.free one_waits.queues 1000 7
        [] t
out_blocked-Left_example =
    out_blocked-Left one_waits.valid 1000 7 [] [] (ap (λ (x : Pcb). x.p_sem_add) one_waits.named)
      (omega arith) one_waiting tt

-- Both lists of descriptors are empty.
abbrev no_semds : Store
no_semds = with_links blank (init_list_head semd_h (init_list_head semd_free_h loops))

abbrev no_semds_rings : Rings
no_semds_rings = new_head semd_h (new_head semd_free_h no_rings)

no_semds-Linked : Linked no_semds.links no_semds_rings
no_semds-Linked =
    Linked-init_head (init_list_head semd_free_h loops) (new_head semd_free_h no_rings)
      (Linked-init_head loops no_rings (no_rings-Linked loops) semd_free_h
        (λ k. loose-ne-in_ring k))
      semd_h (λ k. loose-ne-in_ring k)

no_semds-IsAsl : IsAsl no_semds no_semds_rings [] [] (λ _. [])
no_semds-IsAsl = record {
  core = record {
    linked = no_semds-Linked;
    active_head = refl;
    free_head = refl;
    active = refl;
    free = refl;
    sorted = tt;
    bounded = omega arith;
    queues = tt;
    sentinels = λ j k e. loose-ne-in_ring k (
        sym (
          write_ne (new_head semd_free_h no_rings).role semd_h head (s_procq j) (omega arith)
          ∙ write_ne no_rings.role semd_free_h head (s_procq j) (omega arith))
        ∙ e);
  };
  busy = tt;
}

insert_blocked-full_example : insert_blocked 1000 7 no_semds ≡ some (true, no_semds)
unfolding find_key
insert_blocked-full_example = insert_blocked-full no_semds-IsAsl 1000 7 refl
