-- ===== src/Initial/Boot.antt =====
-- What `main` of phase2/initial.c has set up before the first process.
use progetto_so.Base.{
  ℕ, zero, suc, ◌+◌, ◌≤◌, ◌<◌, ◌≡◌, ◌≢◌, refl, sym, ◌∙◌, [], map, arith, write, write_self,
  write_ne, eq_cases, inl, inr, ◌⊎◌, none,
}
use progetto_so.ListX.{init_list_head}
use progetto_so.ListX.Rings.{Rings, head, loose, in_ring, put, new_head, loose-ne-in_ring}
use progetto_so.ListX.Operations.{Linked-init_head}
use progetto_so.Memory.{
  Store, p_list, s_procq, s_link, semd_h, semd_free_h, pcb_free_h, ready_queue,
}
use progetto_so.Pcb.{init_pcbs, mk_empty_proc_q}
use progetto_so.Pcb.Alloc.{no_rings, freed, free_rings, table, init_pcbs-free}
use progetto_so.Asl.{init_asl}
use progetto_so.Asl.Inv.{IsAsl}
use progetto_so.Asl.Agree.{Agrees, IsAsl-agree}
use progetto_so.Asl.Init.{NoAsl, semds_freed, asl_rings, init_asl-IsAsl}
use progetto_so.Kernel.{Platform, Kernel}
use progetto_so.Terminate.{device_semaphore}
use progetto_so.Initial.{clear_semaphores, boot}

-- Freeing PCBs changes the roles of their queue links alone.
freed_role :
    (n i : ℕ) (r : Rings) (a : ℕ) → ((j : ℕ) → a ≢ p_list j) → (freed n i r).role a ≡ r.role a
unfolding freed
freed_role zero i r a h = refl
freed_role (suc n) i r a h =
    freed_role n (i + 1) (put (p_list i) pcb_free_h _ r) a h
    ∙ write_ne r.role (p_list i) (in_ring pcb_free_h) a (h i)

pub free_rings_role :
    (a : ℕ) → ((j : ℕ) → a ≢ p_list j) → a ≢ pcb_free_h → free_rings.role a ≡ loose
unfolding free_rings
free_rings_role a h ne =
    freed_role 20 0 (new_head pcb_free_h no_rings) a h ∙ write_ne no_rings.role pcb_free_h head a ne

pub init_pcbs-NoAsl : (s : Store) → NoAsl (init_pcbs s) free_rings
init_pcbs-NoAsl s = record {
  linked = (init_pcbs-free s).0;
  links = λ j. free_rings_role (s_link j) (λ i. omega arith) (omega arith);
  sentinels = λ j k e.
      loose-ne-in_ring k (sym (free_rings_role (s_procq j) (λ i. omega arith) (omega arith)) ∙ e);
  active =
      λ k e. loose-ne-in_ring k (sym (free_rings_role semd_h (λ i. omega arith) (omega arith)) ∙ e);
  free = λ k e.
      loose-ne-in_ring k (sym (free_rings_role semd_free_h (λ i. omega arith) (omega arith)) ∙ e);
}

module _ (m : Platform) where
  clear_semaphores-zero :
      (n i : ℕ) (word : ℕ → ℕ) (j : ℕ)
      → j < i + n
      → (i ≤ j) ⊎ (word (device_semaphore m j) ≡ 0)
      → clear_semaphores m n i word (device_semaphore m j) ≡ 0
  unfolding clear_semaphores
  clear_semaphores-zero zero i word j h (inl g) = absurd (omega arith)
  clear_semaphores-zero zero i word j h (inr g) = g
  clear_semaphores-zero (suc n) i word j h g =
      clear_semaphores-zero n (i + 1) (write word (device_semaphore m i) 0) j (omega arith) (at g)
    where
      at :
          (i ≤ j) ⊎ (word (device_semaphore m j) ≡ 0)
          → (i + 1 ≤ j) ⊎ (write word (device_semaphore m i) 0 (device_semaphore m j) ≡ 0)
      at (inl g) = elim (eq_cases j i) [
        | inl e ↦ inr (rw e (write_self word (device_semaphore m i) 0))
        | inr ne ↦ inl (omega arith)
      ]
      at (inr g) = inr (elim (eq_cases (device_semaphore m j) (device_semaphore m i)) [
        | inl e ↦ rw e (write_self word (device_semaphore m i) 0)
        | inr ne ↦ write_ne word (device_semaphore m i) 0 (device_semaphore m j) ne ∙ g
      ])

-- The lists after the boot.
abbrev pub boot_rings : Rings
boot_rings = new_head ready_queue (asl_rings free_rings)

-- All the data of phase 1 are initialised and no process is anywhere.
pub record Booted (m : Platform) (k : Kernel) : Type 0 where
  pub asl : IsAsl k.store boot_rings [] table (λ _. [])
  pub ready_head : boot_rings.role ready_queue ≡ head
  pub ready : boot_rings.list ready_queue ≡ []
  pub free_head : boot_rings.role pcb_free_h ≡ head
  pub free : boot_rings.list pcb_free_h ≡ map p_list table
  pub counts : (k.process_count ≡ 0) × (k.soft_block_count ≡ 0) × (k.current_process ≡ none)
  pub semaphores : (j : ℕ) → j < 49 → k.word (device_semaphore m j) ≡ 0

unready : (k : ℕ) → (asl_rings free_rings).role ready_queue ≢ in_ring k
unfolding freed free_rings semds_freed
unready k = loose-ne-in_ring k

boot_rings-Agrees : Agrees (asl_rings free_rings) boot_rings
boot_rings-Agrees =
    let r = asl_rings free_rings in
    record {
      procq_role = λ j. write_ne r.role ready_queue head (s_procq j) (omega arith);
      procq_list = λ j. write_ne r.list ready_queue [] (s_procq j) (omega arith);
      active_role = write_ne r.role ready_queue head semd_h (omega arith);
      active_list = write_ne r.list ready_queue [] semd_h (omega arith);
      free_role = write_ne r.role ready_queue head semd_free_h (omega arith);
      free_list = write_ne r.list ready_queue [] semd_free_h (omega arith);
    }

-- Whatever the machine holds before it, the boot leaves all PCBs free, each once, an empty ready
-- queue, the invariant of the active semaphore list with all descriptors free, no process and none
-- running or waiting, and all the 49 semaphores of devices and of the pseudo-clock 0.
pub boot-Booted : (m : Platform) (k : Kernel) → Booted m (boot m k)
unfolding boot mk_empty_proc_q freed free_rings semds_freed
boot-Booted m k =
    let v = (init_asl-IsAsl (init_pcbs k.store) free_rings (init_pcbs-NoAsl k.store)).0 in
    record {
      asl =
          IsAsl-agree v boot_rings (init_list_head ready_queue (init_asl (init_pcbs k.store)).links)
            (Linked-init_head (init_asl (init_pcbs k.store)).links (asl_rings free_rings) v.linked
              ready_queue unready)
            boot_rings-Agrees;
      ready_head = refl;
      ready = refl;
      free_head = refl;
      free = refl;
      counts = (refl, refl, refl);
      semaphores = λ j h. clear_semaphores-zero m 49 0 k.word j h (inl (omega arith));
    }
