-- ===== src/Asl.antt =====
-- phase1/asl.c: the active semaphore list, sorted by the address of the semaphore. A loop over a
-- list takes `maxproc + 1` rounds, and `none` means that they ran out.
pub mod Inv
pub mod Agree
pub mod Search
pub mod Init
pub mod Insert
pub mod Order
pub mod Place
pub mod Taken
pub mod Create
pub mod Kept
pub mod Waiting
pub mod Block
pub mod Leave
pub mod Release
pub mod Emptied
pub mod Remove
use progetto_so.Base.{
  ℕ, zero, suc, ◌+◌, Bool, true, false, Option, none, some, ◌==◌, ltb, if◌then◌else◌, write, ◌>>=◌,
}
use progetto_so.ListX.{init_list_head, list_add, list_add_tail, list_del, list_empty}
use progetto_so.Memory.{
  maxproc, Store, p_list, s_procq, s_link, semd_free_h, semd_h, container_of, with_links,
}
use progetto_so.Pcb.{empty_proc_q, head_proc_q, remove_proc_q, out_proc_q}

-- The rounds left of the loop of `initASL`, from the index `i`.
unfoldable pub init_semd_from : ℕ → ℕ → Store → Store
init_semd_from zero i s = s
init_semd_from (suc k) i s = init_semd_from k (i + 1) (record s {
  s_key = write s.s_key i 0;
  links =
      list_add (s_link i) semd_free_h
        (init_list_head (s_link i) (init_list_head (s_procq i) s.links));
})

unfoldable pub init_asl : Store → Store
init_asl s =
    init_semd_from maxproc 0
      (with_links s (init_list_head semd_h (init_list_head semd_free_h s.links)))

-- The loop of `getSemd`, with the iterator at the address `pos`.
unfoldable pub get_semd_from : ℕ → ℕ → ℕ → Store → Option (Option ℕ)
get_semd_from zero sem_add pos s = none
get_semd_from (suc k) sem_add pos s =
    let rest = get_semd_from k sem_add (s.links.next pos) s in
    let key = s.s_key (container_of pos 4) in
    if pos == semd_h
    then some none
    else if key == sem_add
    then some (some (container_of pos 4))
    else if ltb sem_add key
    then some none
    else rest

unfoldable pub get_semd : ℕ → Store → Option (Option ℕ)
get_semd sem_add s = get_semd_from (maxproc + 1) sem_add (s.links.next semd_h) s

-- The loop of `insertBlocked` that looks for the place of the new descriptor, and the insertion.
unfoldable pub link_semd_from : ℕ → ℕ → ℕ → Store → Option Store
link_semd_from zero sem pos s = none
link_semd_from (suc k) sem pos s =
    let rest = link_semd_from k sem (s.links.next pos) s in
    if pos == semd_h
    then some (with_links s (list_add_tail (s_link sem) semd_h s.links))
    else if ltb (s.s_key sem) (s.s_key (container_of pos 4))
    then some (with_links s (list_add_tail (s_link sem) pos s.links))
    else rest

-- `insertBlocked` on a missing key: a descriptor is taken off the free list, initialised and put
-- into its place; `none` inside says that the free list is empty.
unfoldable pub new_semd : ℕ → Store → Option (Option ℕ × Store)
new_semd sem_add s =
    if list_empty semd_free_h s.links
    then some (none, s)
    else (let sem = container_of (s.links.next semd_free_h) 4 in
        let t = record s {
          links =
              init_list_head (s_link sem)
                (init_list_head (s_procq sem) (list_del (s_link sem) s.links));
          s_key = write s.s_key sem sem_add;
        } in
        link_semd_from (maxproc + 1) sem (t.links.next semd_h) t >>= λ u. some (some sem, u))

-- The end of `insertBlocked`: the PCB is queued at the descriptor `sem`.
unfoldable pub block_on : ℕ → ℕ → ℕ → Store → Store
block_on sem sem_add p s = record s {
  pcb = write s.pcb p (record (s.pcb p) { p_sem_add = sem_add });
  links = list_add_tail (p_list p) (s_procq sem) s.links;
}

-- The flag is the value returned: `true` when no descriptor is left.
abbrev pub block_found : ℕ → ℕ → Option ℕ × Store → Option (Bool × Store)
block_found sem_add p (none, s) = some (true, s)
block_found sem_add p (some sem, s) = some (false, block_on sem sem_add p s)

unfoldable pub insert_blocked : ℕ → ℕ → Store → Option (Bool × Store)
insert_blocked sem_add p s = do
  found ← get_semd sem_add s
  (elim found [ none ↦ new_semd sem_add s | some sem ↦ some (some sem, s) ])
      >>= block_found sem_add p

-- A descriptor whose queue has become empty goes back to the free list.
unfoldable pub release_semd : ℕ → Store → Store
release_semd sem s =
    if empty_proc_q (s_procq sem) s
    then with_links s (list_add (s_link sem) semd_free_h (list_del (s_link sem) s.links))
    else s

unfoldable pub remove_from : ℕ → Store → Option ℕ × Store
remove_from sem s = let (p, t) = remove_proc_q (s_procq sem) s in (p, release_semd sem t)

unfoldable pub remove_blocked : ℕ → Store → Option (Option ℕ × Store)
remove_blocked sem_add s = do
  found ← get_semd sem_add s
  elim found [ none ↦ some (none, s) | some sem ↦ some (remove_from sem s) ]

abbrev pub release_removed : ℕ → Option ℕ × Store → Option ℕ × Store
release_removed sem (none, s) = (none, s)
release_removed sem (some p, s) = (some p, release_semd sem s)

unfoldable pub out_blocked : ℕ → Store → Option (Option ℕ × Store)
out_blocked p s =
    let key = (s.pcb p).p_sem_add in
    if key == 0 then some (none, s) else do
      found ← get_semd key s
      elim found [
        | none ↦ some (none, s)
        | some sem ↦ out_proc_q (s_procq sem) p s >>= λ r. some (release_removed sem r)
      ]

unfoldable pub head_blocked : ℕ → Store → Option (Option ℕ)
head_blocked sem_add s = do
  found ← get_semd sem_add s
  some (elim found [ none ↦ none | some sem ↦ head_proc_q (s_procq sem) s ])
