-- ===== src/Syscalls/Queries.antt =====
-- phase2/syscalls.c: the services that tell a process about itself, and the one that yields.
use progetto_so.Base.{
  ℕ, ◌+◌, ◌-◌, ◌/◌, ◌%◌, ◌^◌, Bool, true, false, not, none, some, ◌==◌, ltb, if◌then◌else◌, ◌>>=◌,
}
use progetto_so.Memory.{Store, p_list, ready_queue, with_links}
use progetto_so.ListX.{list_add_tail}
use progetto_so.Kernel.{Kernel, Outcome, charge, update_cpu_time, scheduler}
use progetto_so.Syscalls.Common.{advance, set_a0, resume, save_state}

abbrev pub timescaleaddr : ℕ
timescaleaddr = 0x10000024

abbrev same_sign : Bool → Bool → Bool
same_sign true b = b
same_sign false b = not b

-- `a / b` on values of type `cpu_t`; the machine's division gives -1 where `b` is 0.
abbrev pub magnitude : ℕ → ℕ
magnitude a = if ltb a (2 ^ 31) then a else 2 ^ 32 - a

unfoldable pub signed_div : ℕ → ℕ → ℕ
signed_div a b =
    let q = magnitude a / magnitude b in
    if b == 0
    then 2 ^ 32 - 1
    else if same_sign (ltb a (2 ^ 31)) (ltb b (2 ^ 31))
    then q % 2 ^ 32
    else (2 ^ 32 - q) % 2 ^ 32

unfoldable pub get_cpu_time : Kernel → Outcome
get_cpu_time k = k.current_process >>= λ p.
    let k₁ = record (charge p (k.clock k.readings) k) { readings = k.readings + 1 } in
    resume (advance (set_a0 (signed_div (k₁.store.pcb p).p_time (k₁.word timescaleaddr)) k₁))

unfoldable pub get_support_data : Kernel → Outcome
get_support_data k =
    k.current_process >>= λ p. resume (advance (set_a0 (k.store.pcb p).p_support_struct k))

-- The process id that `GetProcessId` returns to the process `p`.
unfoldable pub pid_for : ℕ → ℕ → Store → ℕ
pid_for p a1 s =
    if a1 == 0
    then (s.pcb p).p_pid
    else elim (s.pcb p).p_parent [ none ↦ 0 | some q ↦ (s.pcb q).p_pid ]

unfoldable pub get_process_id : Kernel → Outcome
get_process_id k = k.current_process >>= λ p.
    resume (advance (set_a0 (pid_for p k.exception_state.reg_a1 k.store) k))

unfoldable pub yield : Kernel → Outcome
yield k =
    let k₁ = update_cpu_time (advance k) in
    k₁.current_process >>= λ p.
    let k₂ = save_state p k₁ in
    scheduler (record k₂ {
      store = with_links k₂.store (list_add_tail (p_list p) ready_queue k₂.store.links);
      current_process = none;
    })
