-- ===== src/Asl/Kept.antt =====
-- What the functions of phase1/asl.c leave alone.
use progetto_so.Base.{ℕ, ◌<◌, ◌≡◌, ◌∙◌, ◌≢◌, none, List, ◌∷◌, arith, length, write_ne}
use progetto_so.ListX.Rings.{Rings, loose}
use progetto_so.Memory.{
  maxproc, Store, p_list, p_child, p_sib, s_procq, s_link, semd_h, semd_free_h, pcb_free_h,
  ready_queue,
}
use progetto_so.Asl.Inv.{IsCore, IsQueue, find_key}
use progetto_so.Asl.Insert.{joined_rings}
use progetto_so.Asl.Taken.{in_use_rings}

-- The queues, the free list and the tree of the PCBs are as they were; the PCB `p` may have moved.
pub record Kept (p : ℕ) (r r' : Rings) : Type 0 where
  pub child_role : (i : ℕ) → r'.role (p_child i) ≡ r.role (p_child i)
  pub child_list : (i : ℕ) → r'.list (p_child i) ≡ r.list (p_child i)
  pub sib_role : (i : ℕ) → r'.role (p_sib i) ≡ r.role (p_sib i)
  pub list_role : (i : ℕ) → i ≢ p → r'.role (p_list i) ≡ r.role (p_list i)
  pub ready_role : r'.role ready_queue ≡ r.role ready_queue
  pub ready_list : r'.list ready_queue ≡ r.list ready_queue
  pub free_role : r'.role pcb_free_h ≡ r.role pcb_free_h
  pub free_list : r'.list pcb_free_h ≡ r.list pcb_free_h

pub joined_rings-Kept :
    {s : Store} {r : Rings} {js fs : List ℕ} {queue : ℕ → List ℕ} (v : IsCore s r js fs queue)
    (p j : ℕ) (hp : r.role (p_list p) ≡ loose) (q : IsQueue s r j (queue j))
    (room : length (queue j) < maxproc)
    → Kept p r (joined_rings v p j hp q room)
joined_rings-Kept {r} v p j hp q room = record {
  child_role = λ i. write_ne r.role (p_list p) _ (p_child i) (omega arith);
  child_list = λ i. write_ne r.list (s_procq j) _ (p_child i) (omega arith);
  sib_role = λ i. write_ne r.role (p_list p) _ (p_sib i) (omega arith);
  list_role = λ i ne. write_ne r.role (p_list p) _ (p_list i) (omega arith);
  ready_role = write_ne r.role (p_list p) _ ready_queue (omega arith);
  ready_list = write_ne r.list (s_procq j) _ ready_queue (omega arith);
  free_role = write_ne r.role (p_list p) _ pcb_free_h (omega arith);
  free_list = write_ne r.list (s_procq j) _ pcb_free_h (omega arith);
}

pub Kept-in_use :
    {s : Store} {r : Rings} {js fs : List ℕ} {j : ℕ} {queue : ℕ → List ℕ}
    (v : IsCore s r js (j ∷ fs) queue) (k p : ℕ) (missing : find_key s.s_key k js ≡ none)
    → Kept p r (in_use_rings v k missing)
Kept-in_use {r} {fs} {j} v k p missing =
    let role : (a : ℕ)
        → a ≢ s_link j
        → a ≢ s_procq j
        → (in_use_rings v k missing).role a ≡ r.role a =
      λ a l q. ground arith in
    let list : (a : ℕ)
        → a ≢ semd_h
        → a ≢ semd_free_h
        → a ≢ s_procq j
        → (in_use_rings v k missing).list a ≡ r.list a =
      λ a l f q. ground arith in
    record {
      child_role = λ i. role (p_child i) (omega arith) (omega arith);
      child_list = λ i. list (p_child i) (omega arith) (omega arith) (omega arith);
      sib_role = λ i. role (p_sib i) (omega arith) (omega arith);
      list_role = λ i ne. role (p_list i) (omega arith) (omega arith);
      ready_role = role ready_queue (omega arith) (omega arith);
      ready_list = list ready_queue (omega arith) (omega arith) (omega arith);
      free_role = role pcb_free_h (omega arith) (omega arith);
      free_list = list pcb_free_h (omega arith) (omega arith) (omega arith);
    }

pub Kept-trans : (p : ℕ) (r r' r'' : Rings) → Kept p r r' → Kept p r' r'' → Kept p r r''
Kept-trans p r r' r'' a b = record {
  child_role = λ i. b.child_role i ∙ a.child_role i;
  child_list = λ i. b.child_list i ∙ a.child_list i;
  sib_role = λ i. b.sib_role i ∙ a.sib_role i;
  list_role = λ i ne. b.list_role i ne ∙ a.list_role i ne;
  ready_role = b.ready_role ∙ a.ready_role;
  ready_list = b.ready_list ∙ a.ready_list;
  free_role = b.free_role ∙ a.free_role;
  free_list = b.free_list ∙ a.free_list;
}
