-- ===== src/Asl/Insert.antt =====
-- `insertBlocked` of phase1/asl.c: the queueing of a process at a descriptor.
use mathlib.Core.List.{map-append}
use progetto_so.Base.{
  ℕ, ◌<◌, ◌≡◌, sym, ap, subst, ◌∙◌, ◌≢◌, inl, inr, List, [], ◌∷◌, ◌++◌, map, arith, All, All-map,
  All-append, Fresh, length, length-append, eq_cases, write, write_self, write_ne,
}
use progetto_so.ListX.Rings.{Rings, Linked, loose, in_ring, put, loose-ne-in_ring, Fresh-of_role}
use progetto_so.ListX.Operations.{Linked-list_add_tail}
use progetto_so.Memory.{maxproc, Pcb, Store, p_list, s_procq, semd_h, semd_free_h}
use progetto_so.Asl.{block_on}
use progetto_so.Asl.Inv.{IsCore, IsQueue}

-- A PCB that is in no queue is not in this one.
pub Fresh-p_list : (p : ℕ) (ps : List ℕ) → Fresh (p_list p) (map p_list ps) → Fresh p ps
Fresh-p_list p [] f = tt
Fresh-p_list p (q ∷ ps) f =
    ((let h : p_list p ≢ p_list q = f.0 in omega arith), Fresh-p_list p ps f.1)

module _ (s : Store) (r : Rings) (p : ℕ) (hp : r.role (p_list p) ≡ loose) where
  pub Fresh-IsQueue : (j : ℕ) (ps : List ℕ) → Linked s.links r → IsQueue s r j ps → Fresh p ps
  Fresh-IsQueue j ps l q = Fresh-p_list p ps (
      subst (Fresh (p_list p)) q.entries (
        Fresh-of_role r.role (p_list p) (s_procq j) (r.list (s_procq j))
          (λ e. loose-ne-in_ring (s_procq j) (sym hp ∙ e)) (l (s_procq j) q.at_head).members))

-- The semaphore that a process names is not changed by what happens to another.
pub named_frame :
    (f : ℕ → Pcb) (p : ℕ) (v : Pcb) (k : ℕ) (ps : List ℕ)
    → Fresh p ps
    → All (λ q. (f q).p_sem_add ≡ k) ps
    → All (λ q. (write f p v q).p_sem_add ≡ k) ps
named_frame f p v k [] fr h = tt
named_frame f p v k (q ∷ ps) fr h = (
  (ap (λ (x : Pcb). x.p_sem_add) (write_ne f p v q (λ e. fr.0 (sym e))) ∙ h.0),
  named_frame f p v k ps fr.1 h.1,
)

module _ {s : Store} {r : Rings} {js fs : List ℕ} {queue : ℕ → List ℕ} (v : IsCore s r js fs queue)
    (p j : ℕ) (hp : r.role (p_list p) ≡ loose) (q : IsQueue s r j (queue j))
    (room : length (queue j) < maxproc) where
  abbrev pub joined : List ℕ
  joined = queue j ++ p ∷ []

  abbrev pub joined_rings : Rings
  joined_rings = put (p_list p) (s_procq j) (map p_list joined) r

  joined-IsQueue :
      (i : ℕ)
      → IsQueue s r i (queue i)
      → IsQueue (block_on j (s.s_key j) p s) joined_rings i (write queue j joined i)
  unfolding block_on
  joined-IsQueue i u = elim (eq_cases i j) [
    | inl e ↦
        subst (λ x. IsQueue (block_on j (s.s_key j) p s) joined_rings x (write queue j joined x))
          (sym e)
          (subst (IsQueue (block_on j (s.s_key j) p s) joined_rings j)
            (sym (write_self queue j joined))
            (record {
              at_head =
                  write_ne r.role (p_list p) (in_ring (s_procq j)) (s_procq j) (omega arith)
                  ∙ q.at_head;
              entries = write_self r.list (s_procq j) (map p_list joined);
              named =
                  All-append (λ x. ((block_on j (s.s_key j) p s).pcb x).p_sem_add ≡ s.s_key j)
                    (queue j) (p ∷ [])
                    (named_frame s.pcb p _ (s.s_key j) (queue j)
                      (Fresh-IsQueue s r p hp j (queue j) v.linked q) q.named)
                    (
                      ap (λ (x : Pcb). x.p_sem_add)
                          (write_self s.pcb p (record (s.pcb p) { p_sem_add = s.s_key j })),
                      tt,
                    );
              small = omega (arith, length-append (queue j) (p ∷ []));
            }))
    | inr ne ↦
        subst (IsQueue (block_on j (s.s_key j) p s) joined_rings i)
          (sym (write_ne queue j joined i ne))
          (record {
            at_head =
                write_ne r.role (p_list p) (in_ring (s_procq j)) (s_procq i) (omega arith)
                ∙ u.at_head;
            entries =
                write_ne r.list (s_procq j) (map p_list joined) (s_procq i) (omega arith)
                ∙ u.entries;
            named =
                named_frame s.pcb p _ (s.s_key i) (queue i)
                  (Fresh-IsQueue s r p hp i (queue i) v.linked u) u.named;
            small = u.small;
          })
  ]

  -- Queueing a loose PCB at a descriptor keeps the list, with the PCB behind those that wait there.
  pub block_on-IsCore :
      IsCore (block_on j (s.s_key j) p s) joined_rings js fs (write queue j joined)
  unfolding block_on
  block_on-IsCore = record {
    linked =
        subst (λ xs. Linked (block_on j (s.s_key j) p s).links (put (p_list p) (s_procq j) xs r))
          (ap (λ xs. xs ++ p_list p ∷ []) q.entries ∙ sym (map-append p_list (queue j) (p ∷ [])))
          (Linked-list_add_tail s.links r v.linked (s_procq j) q.at_head (p_list p) hp);
    active_head =
        write_ne r.role (p_list p) (in_ring (s_procq j)) semd_h (omega arith) ∙ v.active_head;
    free_head =
        write_ne r.role (p_list p) (in_ring (s_procq j)) semd_free_h (omega arith) ∙ v.free_head;
    active = write_ne r.list (s_procq j) (map p_list joined) semd_h (omega arith) ∙ v.active;
    free = write_ne r.list (s_procq j) (map p_list joined) semd_free_h (omega arith) ∙ v.free;
    sorted = v.sorted;
    bounded = v.bounded;
    queues = All-map js joined-IsQueue v.queues;
    sentinels = λ i k e.
        v.sentinels i k
          (sym (write_ne r.role (p_list p) (in_ring (s_procq j)) (s_procq i) (omega arith)) ∙ e);
  }
