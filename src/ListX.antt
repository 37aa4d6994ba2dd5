-- ===== src/ListX.antt =====
-- headers/listx.h: the intrusive doubly linked lists. A `struct list_head` is an address, and the
-- two fields of all of them are the two functions of `Links`.
pub mod Ring
pub mod Rings
pub mod Operations
use progetto_so.Base.{ℕ, Bool, Option, none, some, ◌==◌, if◌then◌else◌, write}

pub record Links : Type 0 where
  pub next : ℕ → ℕ
  pub prev : ℕ → ℕ

abbrev pub init_list_head : ℕ → Links → Links
init_list_head l s = record { next = write s.next l l; prev = write s.prev l l }

-- `__list_add(new, prev, next)`
unfoldable pub list_add_between : ℕ → ℕ → ℕ → Links → Links
list_add_between new p n s = record {
  next = write (write s.next new n) p new;
  prev = write (write s.prev n new) new p;
}

unfoldable pub list_add : ℕ → ℕ → Links → Links
list_add new head s = list_add_between new head (s.next head) s

unfoldable pub list_add_tail : ℕ → ℕ → Links → Links
list_add_tail new head s = list_add_between new (s.prev head) head s

-- `__list_del(prev, next)`
unfoldable pub list_del_between : ℕ → ℕ → Links → Links
list_del_between p n s = record { next = write s.next p n; prev = write s.prev n p }

unfoldable pub list_del : ℕ → Links → Links
list_del entry s = init_list_head entry (list_del_between (s.prev entry) (s.next entry) s)

unfoldable pub list_is_last : ℕ → ℕ → Links → Bool
list_is_last l head s = s.next l == head

unfoldable pub list_empty : ℕ → Links → Bool
list_empty head s = s.next head == head

-- `none` is NULL.
unfoldable pub list_next : ℕ → Links → Option ℕ
unfolding list_empty
list_next current s = if list_empty current s then none else some (s.next current)

unfoldable pub list_prev : ℕ → Links → Option ℕ
unfolding list_empty
list_prev current s = if list_empty current s then none else some (s.prev current)
