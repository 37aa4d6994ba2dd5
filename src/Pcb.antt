-- ===== src/Pcb.antt =====
-- phase1/pcb.c: allocation of process control blocks, the process queues and the process tree. A
-- function that changes memory returns the new store; one that loops over a list takes
-- `maxproc + 1` rounds, and `none` means that they ran out.
pub mod Insert
pub mod Queues
pub mod Alloc
pub mod Tree
use progetto_so.Base.{
  ℕ, zero, suc, ◌+◌, ◌%◌, ◌^◌, Bool, Option, none, some, ◌==◌, if◌then◌else◌, write,
}
use progetto_so.ListX.{init_list_head, list_add, list_add_tail, list_del, list_empty}
use progetto_so.Memory.{
  maxproc, State, Pcb, Store, p_list, p_child, p_sib, pcb_free_h, container_of, signed_lt,
  with_links,
}

-- Insert the PCB into the free list.
unfoldable pub free_pcb : ℕ → Store → Store
free_pcb p s = with_links s (list_add (p_list p) pcb_free_h s.links)

-- The rounds left of the loop of `initPcbs`, from the index `i`.
unfoldable pub free_from : ℕ → ℕ → Store → Store
free_from zero i s = s
free_from (suc k) i s = free_from k (i + 1) (free_pcb i s)

unfoldable pub init_pcbs : Store → Store
init_pcbs s = free_from maxproc 0 (with_links s (init_list_head pcb_free_h s.links))

-- The processor state with every register reset.
abbrev pub reset_state : State
reset_state = record {
  entry_hi = 0;
  cause = 0;
  status = 0;
  pc_epc = 0;
  mie = 0;
  reg_sp = 0;
  reg_a0 = 0;
  reg_a1 = 0;
  reg_a2 = 0;
  reg_a3 = 0;
  gpr = λ _. 0;
}

-- The fields of a PCB that has just been allocated.
abbrev pub reset_pcb : ℕ → Pcb
reset_pcb pid = record {
  p_parent = none;
  p_s = reset_state;
  p_time = 0;
  p_sem_add = 0;
  p_support_struct = 0;
  p_prio = 0;
  p_pid = pid;
}

-- The branch of `allocPcb` that takes the PCB `p` off the free list.
unfoldable pub alloc_taken : ℕ → Store → Store
alloc_taken p s = record {
  links =
      init_list_head (p_sib p)
        (init_list_head (p_child p) (init_list_head (p_list p) (list_del (p_list p) s.links)));
  pcb = write s.pcb p (reset_pcb s.next_pid);
  s_key = s.s_key;
  next_pid = (s.next_pid + 1) % 2 ^ 32;
}

unfoldable pub alloc_pcb : Store → Option ℕ × Store
alloc_pcb s =
    if list_empty pcb_free_h s.links
    then (none, s)
    else (let p = container_of (s.links.next pcb_free_h) 0 in (some p, alloc_taken p s))

unfoldable pub mk_empty_proc_q : ℕ → Store → Store
mk_empty_proc_q head s = with_links s (init_list_head head s.links)

unfoldable pub empty_proc_q : ℕ → Store → Bool
empty_proc_q head s = list_empty head s.links

-- The loop of `insertProcQ`, with the iterator at the address `pos`.
unfoldable pub insert_from : ℕ → ℕ → ℕ → ℕ → Store → Option Store
insert_from zero head p pos s = none
insert_from (suc k) head p pos s =
    let rest = insert_from k head p (s.links.next pos) s in
    if pos == head
    then some (with_links s (list_add_tail (p_list p) head s.links))
    else if signed_lt (s.pcb (container_of pos 0)).p_prio (s.pcb p).p_prio
    then some (with_links s (list_add_tail (p_list p) pos s.links))
    else rest

unfoldable pub insert_proc_q : ℕ → ℕ → Store → Option Store
insert_proc_q head p s = insert_from (maxproc + 1) head p (s.links.next head) s

unfoldable pub head_proc_q : ℕ → Store → Option ℕ
head_proc_q head s =
    if list_empty head s.links then none else some (container_of (s.links.next head) 0)

unfoldable pub remove_proc_q : ℕ → Store → Option ℕ × Store
remove_proc_q head s =
    if list_empty head s.links
    then (none, s)
    else (let p = container_of (s.links.next head) 0 in
        (some p, with_links s (list_del (p_list p) s.links)))

-- The loop of `outProcQ`, with the iterator at the address `pos`.
unfoldable pub out_from : ℕ → ℕ → ℕ → ℕ → Store → Option (Option ℕ × Store)
out_from zero head p pos s = none
out_from (suc k) head p pos s =
    let rest = out_from k head p (s.links.next pos) s in
    if pos == head
    then some (none, s)
    else if container_of pos 0 == p
    then some (some p, with_links s (list_del (p_list p) s.links))
    else rest

unfoldable pub out_proc_q : ℕ → ℕ → Store → Option (Option ℕ × Store)
out_proc_q head p s = out_from (maxproc + 1) head p (s.links.next head) s

unfoldable pub empty_child : ℕ → Store → Bool
empty_child p s = list_empty (p_child p) s.links

-- `p->p_parent = parent`
abbrev pub set_parent : ℕ → Option ℕ → Store → Store
set_parent p parent s = record s { pcb = write s.pcb p (record (s.pcb p) { p_parent = parent }) }

unfoldable pub insert_child : ℕ → ℕ → Store → Store
insert_child prnt p s =
    with_links (set_parent p (some prnt) s) (list_add_tail (p_sib p) (p_child prnt) s.links)

unfoldable pub remove_child : ℕ → Store → Option ℕ × Store
remove_child p s =
    if list_empty (p_child p) s.links
    then (none, s)
    else (let child = container_of (s.links.next (p_child p)) 2 in
        (some child, set_parent child none (with_links s (list_del (p_sib child) s.links))))

unfoldable pub out_child : ℕ → Store → Option ℕ × Store
out_child p s = elim (s.pcb p).p_parent [
  | none ↦ (none, s)
  | some _ ↦ (some p, set_parent p none (with_links s (list_del (p_sib p) s.links)))
]
