-- ===== src/Memory.antt =====
-- headers/types.h and headers/const.h: the memory that both phases of the kernel work on.
--
-- A pointer to a PCB or to a semaphore descriptor is its index in `pcbFree_table` or `semd_table`;
-- `Option` adds NULL. An `int` is its bit pattern, a number below 2 ^ 32. The address of a
-- `struct list_head` is a number: the table entry `i` takes the eight addresses from `8 * i`, with
-- each field at its own offset, so that `container_of` subtracts an offset as in C; the sentinels
-- that stand outside a table have the offset 5.
use progetto_so.Base.{ℕ, ◌+◌, ◌-◌, ◌*◌, ◌/◌, ◌%◌, ◌^◌, Bool, Option, ltb}
use progetto_so.ListX.{Links}

abbrev pub maxproc : ℕ
maxproc = 20

-- The fields of `state_t` that the kernel names; `gpr` holds the other general registers.
pub record State : Type 0 where
  pub entry_hi : ℕ
  pub cause : ℕ
  pub status : ℕ
  pub pc_epc : ℕ
  pub mie : ℕ
  pub reg_sp : ℕ
  pub reg_a0 : ℕ
  pub reg_a1 : ℕ
  pub reg_a2 : ℕ
  pub reg_a3 : ℕ
  pub gpr : ℕ → ℕ

-- `pcb_t`, less its three link fields, which stand in `Links`. In `p_sem_add` and
-- `p_support_struct` the address 0 is NULL.
pub record Pcb : Type 0 where
  pub p_parent : Option ℕ
  pub p_s : State
  pub p_time : ℕ
  pub p_sem_add : ℕ
  pub p_support_struct : ℕ
  pub p_prio : ℕ
  pub p_pid : ℕ

-- The data of phase 1: the link fields, the two tables and the counter of process ids. Of a
-- `semd_t` the key is kept here, 0 for NULL.
pub record Store : Type 0 where
  pub links : Links
  pub pcb : ℕ → Pcb
  pub s_key : ℕ → ℕ
  pub next_pid : ℕ

module _ (i : ℕ) where
  abbrev pub p_list : ℕ
  p_list = 8 * i

  abbrev pub p_child : ℕ
  p_child = 8 * i + 1

  abbrev pub p_sib : ℕ
  p_sib = 8 * i + 2

  abbrev pub s_procq : ℕ
  s_procq = 8 * i + 3

  abbrev pub s_link : ℕ
  s_link = 8 * i + 4

abbrev pub pcb_free_h : ℕ
pcb_free_h = 5

abbrev pub semd_free_h : ℕ
semd_free_h = 13

abbrev pub semd_h : ℕ
semd_h = 21

abbrev pub ready_queue : ℕ
ready_queue = 29

-- `container_of(ptr, type, member)`: the table entry whose field at the offset has the address.
abbrev pub container_of : ℕ → ℕ → ℕ
container_of ptr offset = (ptr - offset) / 8

-- `a < b` on two values of type `int`.
abbrev pub signed_lt : ℕ → ℕ → Bool
signed_lt a b = ltb ((a + 2 ^ 31) % 2 ^ 32) ((b + 2 ^ 31) % 2 ^ 32)

abbrev pub with_links : Store → Links → Store
with_links s l = record s { links = l }
