-- ===== src/Initial/First.antt =====
-- The first process of `main` of phase2/initial.c.
use progetto_so.Base.{
  ℕ, zero, suc, ◌+◌, ◌%◌, ◌^◌, ◌≡◌, ◌≢◌, refl, sym, ap, ◌∙◌, List, [], ◌∷◌, ◌++◌, map, arith, ◌<◌,
  write_self, write_ne, none, some, All, All-map, ◌>>=◌,
}
use progetto_so.ListX.Rings.{Rings, head, loose, in_ring, put, take_out, new_head, loose-ne-in_ring}
use progetto_so.Memory.{
  State, Pcb, p_list, p_child, p_sib, s_procq, s_link, semd_h, semd_free_h, pcb_free_h, ready_queue,
  with_links,
}
use progetto_so.Pcb.Alloc.{freed, free_rings, table, alloc_pcb-Allocated}
use progetto_so.Pcb.Insert.{insert_proc_q-Inserted}
use progetto_so.Asl.Init.{semds_freed, asl_rings}
use progetto_so.Asl.Waiting.{All-trivial}
use progetto_so.Kernel.{Platform, Kernel, ldst, Outcome, timeslice, scheduler, set_pcb, incr}
use progetto_so.Kernel.Schedule.{scheduler-dispatch}
use progetto_so.Initial.{boot, main, first_process, first_state}
use progetto_so.Initial.Boot.{boot_rings, boot-Booted, free_rings_role}

semds_freed_role :
    (n i : ℕ) (r : Rings) (a : ℕ)
    → ((j : ℕ) → a ≢ s_procq j)
    → ((j : ℕ) → a ≢ s_link j)
    → (semds_freed n i r).role a ≡ r.role a
unfolding semds_freed
semds_freed_role zero i r a h g = refl
semds_freed_role (suc n) i r a h g =
    semds_freed_role n (i + 1) _ a h g
    ∙ (write_ne (new_head (s_procq i) r).role (s_link i) (in_ring semd_free_h) a (g i)
        ∙ write_ne r.role (s_procq i) head a (h i))

-- The link fields for the tree are in no list after the boot.
pub boot_loose : (a : ℕ) → 0 < a % 8 → a % 8 < 3 → boot_rings.role a ≡ loose
boot_loose a h₁ h₂ =
    let r₁ = new_head semd_free_h free_rings in
    write_ne (asl_rings free_rings).role ready_queue head a (omega arith)
    ∙ (semds_freed_role 20 0 (new_head semd_h r₁) a (λ j. omega arith) (λ j. omega arith)
        ∙ (write_ne r₁.role semd_h head a (omega arith)
            ∙ (write_ne free_rings.role semd_free_h head a (omega arith)
                ∙ free_rings_role a (λ j. omega arith) (omega arith))))

abbrev IsApart : ℕ → Type 0
IsApart p =
    ((k : ℕ) → boot_rings.role (p_child p) ≢ in_ring k) × (boot_rings.role (p_sib p) ≡ loose)

pcb-IsApart : (p : ℕ) → IsApart p
pcb-IsApart p = (
  (λ k e. loose-ne-in_ring k (sym (boot_loose (p_child p) (omega arith) (omega arith)) ∙ e)),
  boot_loose (p_sib p) (omega arith) (omega arith),
)

unlinked : All IsApart table
unlinked = All-map {P = λ _. Unit {0}} table (λ p _. pcb-IsApart p) (All-trivial table)

-- The PCB of the first process, and the others.
abbrev first_pcb : ℕ
first_pcb = 19

abbrev other_pcbs : List ℕ
other_pcbs = 18 ∷ 17 ∷ 16 ∷ 15 ∷ 14 ∷ 13 ∷ 12 ∷ 11 ∷ 10 ∷ 9 ∷ 8 ∷ 7 ∷ 6 ∷ 5 ∷ 4 ∷ 3 ∷ 2 ∷ 1 ∷ 0 ∷ []

abbrev first_rings : Rings
first_rings =
    new_head (p_child first_pcb)
      (take_out (p_list first_pcb) pcb_free_h (map p_list other_pcbs) boot_rings)

first_head : first_rings.role ready_queue ≡ head
unfolding freed free_rings semds_freed
first_head = refl

first_loose : first_rings.role (p_list first_pcb) ≡ loose
unfolding freed free_rings semds_freed
first_loose = refl

first_none : first_rings.list ready_queue ≡ []
unfolding freed free_rings semds_freed
first_none = refl

only_one : (p : ℕ) (xs ys : List ℕ) → [] ≡ xs ++ ys → xs ++ p ∷ ys ≡ p ∷ []
only_one p [] [] e = refl
only_one p [] (y ∷ ys) e = cc
only_one p (x ∷ xs) ys e = cc

-- The first process runs, alone.
pub record Started (m : Platform) (k : Kernel) (o : Outcome) : Type 0 where
  pub state : State
  pub kernel : Kernel
  pub outcome : o ≡ some (ldst state, kernel)
  pub program : state.pc_epc ≡ m.test
  pub stack : state.reg_sp ≡ ((boot m k).word 0x1000_0000 + (boot m k).word 0x1000_0004) % 2 ^ 32
  pub mode : state.status ≡ 0x1880
  pub current : kernel.current_process ≡ some first_pcb
  pub counts : (kernel.process_count ≡ 1) × (kernel.soft_block_count ≡ 0)
  pub identity : (kernel.store.pcb first_pcb).p_pid ≡ (boot m k).store.next_pid
  pub orphan : (kernel.store.pcb first_pcb).p_parent ≡ none

-- Whatever the machine holds before it, `main` gives the processor to one process, at the address of
-- `test`, with its stack at the end of memory and with the status 0x1880 of machine mode;
-- it is the only process, has no parent, and has the id that the counter of ids holds.
pub main-Started : (m : Platform) (k : Kernel) → Started m k (main m k)
unfolding main
main-Started m k =
    let j = boot m k in
    let b = boot-Booted m k in
    let (t, got, l, fresh, others, keys, pid) =
      alloc_pcb-Allocated j.store boot_rings table b.asl.linked b.free_head b.free unlinked in
    let (u, xs, ys, run, linked, parts, front, back, sorted) =
      insert_proc_q-Inserted t first_rings ready_queue first_pcb [] l first_head first_loose
        first_none (omega arith) tt in
    let q = t.pcb first_pcb in
    let i : Kernel =
      set_pcb first_pcb (record q { p_s = first_state m j q.p_s })
        (record j { store = with_links t u; process_count = incr j.process_count }) in
    let r = put (p_list first_pcb) ready_queue (map p_list (xs ++ first_pcb ∷ ys)) first_rings in
    let first_ready : r.role ready_queue ≡ head =
      write_ne first_rings.role (p_list first_pcb) (in_ring ready_queue) ready_queue (omega arith)
      ∙ first_head in
    let (w, went, last) = scheduler-dispatch i r linked first_ready first_pcb [] (
      write_self first_rings.list ready_queue (map p_list (xs ++ first_pcb ∷ ys))
      ∙ ap (map p_list) (only_one first_pcb xs ys parts)) in
    let loaded : i.store.pcb first_pcb ≡ record q { p_s = first_state m j q.p_s } =
      write_self t.pcb first_pcb (record q { p_s = first_state m j q.p_s }) in
    record {
      state = (i.store.pcb first_pcb).p_s;
      kernel = record i {
        store = with_links (i.store) w;
        current_process = some first_pcb;
        timer = timeslice;
        p_start = i.clock i.readings;
        readings = i.readings + 1;
      };
      outcome =
          ap (λ o. first_process m j o >>= scheduler) got
          ∙ (ap
                (λ o.
                  (o >>= λ s. some (
                    set_pcb first_pcb
                      (record (s.pcb first_pcb) { p_s = first_state m j (s.pcb first_pcb).p_s })
                      (record j { store = s; process_count = incr j.process_count })))
                  >>= scheduler)
                run
              ∙ went);
      program = ap (λ (x : Pcb). x.p_s.pc_epc) loaded;
      stack = ap (λ (x : Pcb). x.p_s.reg_sp) loaded;
      mode = ap (λ (x : Pcb). x.p_s.status) loaded;
      current = refl;
      counts = (ap incr b.counts.0, b.counts.1);
      identity = ap (λ (x : Pcb). x.p_pid) loaded ∙ ap (λ (x : Pcb). x.p_pid) fresh;
      orphan = ap (λ (x : Pcb). x.p_parent) loaded ∙ ap (λ (x : Pcb). x.p_parent) fresh;
    }
