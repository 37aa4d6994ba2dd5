-- ===== src/Asl/Init.antt =====
-- `initASL` of phase1/asl.c.
use progetto_so.Base.{
  ℕ, zero, suc, ◌+◌, ◌≤◌, ◌≡◌, refl, sym, ap, ◌∙◌, subst, ◌≢◌, List, [], ◌∷◌, map, arith,
  write_self, write_ne, eq_cases, inl, inr,
}
use progetto_so.ListX.{init_list_head, list_add}
use progetto_so.ListX.Rings.{Rings, Linked, head, loose, in_ring, put, new_head, head-ne-in_ring}
use progetto_so.ListX.Operations.{Linked-init_head, Linked-init_loose, Linked-list_add}
use progetto_so.Memory.{maxproc, Store, s_procq, s_link, semd_h, semd_free_h, with_links}
use progetto_so.Asl.{init_semd_from, init_asl}
use progetto_so.Asl.Inv.{IsAsl}
use progetto_so.Pcb.Alloc.{table}

-- The lists before `initASL`: no descriptor is in one.
pub record NoAsl (s : Store) (r : Rings) : Type 0 where
  pub linked : Linked s.links r
  pub links : (j : ℕ) → r.role (s_link j) ≡ loose
  pub sentinels : (j k : ℕ) → r.role (s_procq j) ≢ in_ring k
  pub active : (k : ℕ) → r.role semd_h ≢ in_ring k
  pub free : (k : ℕ) → r.role semd_free_h ≢ in_ring k

-- One round of the loop.
abbrev one_more : ℕ → Rings → Rings
one_more i r = put (s_link i) semd_free_h (s_link i ∷ r.list semd_free_h) (new_head (s_procq i) r)

unfoldable pub semds_freed : ℕ → ℕ → Rings → Rings
semds_freed zero i r = r
semds_freed (suc n) i r = semds_freed n (i + 1) (one_more i r)

-- The free descriptors after `n` rounds from the index `i`.
prepended : ℕ → ℕ → List ℕ → List ℕ
prepended zero i js = js
prepended (suc n) i js = prepended n (i + 1) (i ∷ js)

-- What holds between two rounds, with the descriptors `fs` free and none from `i` on.
record Filling (s : Store) (r : Rings) (i : ℕ) (fs : List ℕ) : Type 0 where
  linked : Linked s.links r
  active_head : r.role semd_h ≡ head
  free_head : r.role semd_free_h ≡ head
  active : r.list semd_h ≡ []
  free : r.list semd_free_h ≡ map s_link fs
  links : (j : ℕ) → i ≤ j → r.role (s_link j) ≡ loose
  sentinels : (j k : ℕ) → r.role (s_procq j) ≢ in_ring k

round-Filling :
    (s : Store) (r : Rings) (i : ℕ) (fs : List ℕ)
    → Filling s r i fs
    → Filling (init_semd_from 1 i s) (one_more i r) (i + 1) (i ∷ fs)
unfolding init_semd_from
round-Filling s r i fs f =
    let l₁ = Linked-init_head s.links r f.linked (s_procq i) (f.sentinels i) in
    let loose_i : (new_head (s_procq i) r).role (s_link i) ≡ loose =
      write_ne r.role (s_procq i) head (s_link i) (omega arith) ∙ f.links i (omega arith) in
    let l₂ =
      Linked-init_loose (init_list_head (s_procq i) s.links) (new_head (s_procq i) r) l₁ (s_link i)
        loose_i in
    let free_head : (new_head (s_procq i) r).role semd_free_h ≡ head =
      write_ne r.role (s_procq i) head semd_free_h (omega arith) ∙ f.free_head in
    let free_list : (new_head (s_procq i) r).list semd_free_h ≡ r.list semd_free_h =
      write_ne r.list (s_procq i) [] semd_free_h (omega arith) in
    record {
      linked =
          subst
            (λ xs.
              Linked
                (list_add (s_link i) semd_free_h
                  (init_list_head (s_link i) (init_list_head (s_procq i) s.links)))
                (put (s_link i) semd_free_h (s_link i ∷ xs) (new_head (s_procq i) r)))
            free_list
            (Linked-list_add (init_list_head (s_link i) (init_list_head (s_procq i) s.links))
              (new_head (s_procq i) r) l₂ semd_free_h free_head (s_link i) loose_i);
      active_head =
          write_ne (new_head (s_procq i) r).role (s_link i) (in_ring semd_free_h) semd_h
            (omega arith)
          ∙ (write_ne r.role (s_procq i) head semd_h (omega arith) ∙ f.active_head);
      free_head =
          write_ne (new_head (s_procq i) r).role (s_link i) (in_ring semd_free_h) semd_free_h
            (omega arith)
          ∙ free_head;
      active = write_ne r.list (s_procq i) [] semd_h (omega arith) ∙ f.active;
      free = ap (λ xs. s_link i ∷ xs) f.free;
      links = λ j h.
          write_ne (new_head (s_procq i) r).role (s_link i) (in_ring semd_free_h) (s_link j)
            (omega arith)
          ∙ (write_ne r.role (s_procq i) head (s_link j) (omega arith) ∙ f.links j (omega arith));
      sentinels = λ j k e. elim (eq_cases j i) [
        | inl q ↦ head-ne-in_ring k (
            sym (
              ap (one_more i r).role (ap s_procq q)
              ∙ (write_ne (new_head (s_procq i) r).role (s_link i) (in_ring semd_free_h) (s_procq i)
                    (omega arith)
                  ∙ write_self r.role (s_procq i) head))
            ∙ e)
        | inr ne ↦ f.sentinels j k (
            sym (
              write_ne (new_head (s_procq i) r).role (s_link i) (in_ring semd_free_h) (s_procq j)
                (omega arith)
              ∙ write_ne r.role (s_procq i) head (s_procq j) (omega arith))
            ∙ e)
      ];
    }

rounds-Filling :
    (n i : ℕ) (s : Store) (r : Rings) (fs : List ℕ)
    → Filling s r i fs
    → Filling (init_semd_from n i s) (semds_freed n i r) (i + n) (prepended n i fs)
      × ((init_semd_from n i s).pcb ≡ s.pcb)
      × ((init_semd_from n i s).next_pid ≡ s.next_pid)
unfolding init_semd_from semds_freed prepended
rounds-Filling zero i s r fs f =
    (subst (λ x. Filling s r x fs) (let e : i ≡ i + 0 = omega arith in e) f, refl, refl)
rounds-Filling (suc n) i s r fs f =
    let (g, p, q) =
      rounds-Filling n (i + 1) (init_semd_from 1 i s) (one_more i r) (i ∷ fs)
        (round-Filling s r i fs f) in
    (
      subst
          (λ x.
            Filling (init_semd_from n (i + 1) (init_semd_from 1 i s))
              (semds_freed n (i + 1) (one_more i r)) x (prepended n (i + 1) (i ∷ fs)))
          (let e : i + 1 + n ≡ i + suc n = omega arith in e) g,
      p,
      q,
    )

-- The lists after `initASL`.
abbrev pub asl_rings : Rings → Rings
asl_rings r = semds_freed maxproc 0 (new_head semd_h (new_head semd_free_h r))

-- In memory where no descriptor is in a list, `initASL` establishes the invariant of the active
-- semaphore list: no descriptor is in use and all of the table are free, each once, and no PCB is
-- written.
pub init_asl-IsAsl :
    (s : Store) (r : Rings)
    → NoAsl s r
    → IsAsl (init_asl s) (asl_rings r) [] table (λ _. [])
      × ((init_asl s).pcb ≡ s.pcb)
      × ((init_asl s).next_pid ≡ s.next_pid)
unfolding init_asl prepended
init_asl-IsAsl s r n =
    let l₁ = Linked-init_head s.links r n.linked semd_free_h n.free in
    let l₂ =
      Linked-init_head (init_list_head semd_free_h s.links) (new_head semd_free_h r) l₁ semd_h
        n.active in
    let start : Filling (with_links s (init_list_head semd_h (init_list_head semd_free_h s.links)))
        (new_head semd_h (new_head semd_free_h r)) 0 [] =
      record {
        linked = l₂;
        active_head = refl;
        free_head = refl;
        active = refl;
        free = refl;
        links = λ j h.
            write_ne (new_head semd_free_h r).role semd_h head (s_link j) (omega arith)
            ∙ (write_ne r.role semd_free_h head (s_link j) (omega arith) ∙ n.links j);
        sentinels = λ j k e. n.sentinels j k (
            sym (
              write_ne (new_head semd_free_h r).role semd_h head (s_procq j) (omega arith)
              ∙ write_ne r.role semd_free_h head (s_procq j) (omega arith))
            ∙ e);
      } in
    let (f, p, q) = rounds-Filling 20 0 _ _ [] start in
    (
      record {
        core = record {
          linked = f.linked;
          active_head = f.active_head;
          free_head = f.free_head;
          active = f.active;
          free = f.free;
          sorted = tt;
          bounded = omega arith;
          queues = tt;
          sentinels = f.sentinels;
        };
        busy = tt;
      },
      p,
      q,
    )
