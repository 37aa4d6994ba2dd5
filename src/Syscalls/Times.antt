-- ===== src/Syscalls/Times.antt =====
-- `GetCPUTime` of phase2/syscalls.c, and what it does to the accounting of processor time.
use progetto_so.Base.{ℕ, ◌+◌, ◌%◌, ◌^◌, ◌≡◌, refl, ap, ◌∙◌, some, arith, write_self}
use progetto_so.Memory.{Pcb, State}
use progetto_so.Kernel.{Kernel, ldst, charge, sub32, update_cpu_time}
use progetto_so.Kernel.Time.{time_of, update_cpu_time-charges}
use progetto_so.Syscalls.Queries.{timescaleaddr, signed_div, get_cpu_time}
use progetto_so.Syscalls.Common.{advance, set_a0}

-- The kernel when `GetCPUTime` returns to `p`.
abbrev told : ℕ → Kernel → Kernel
told p k =
    let k₁ = record (charge p (k.clock k.readings) k) { readings = k.readings + 1 } in
    advance (set_a0 (signed_div (k₁.store.pcb p).p_time (k₁.word timescaleaddr)) k₁)

add_twice : (t a b : ℕ) → ((t + a) % 2 ^ 32 + b) % 2 ^ 32 ≡ (t + a + b) % 2 ^ 32
add_twice t a b = omega arith

-- A process `p` that asks for its processor time is resumed, and the next call of `updateCpuTime`
-- charges it both the time from the start `s` of its interval to the second reading `b` of the
-- clock and, once more, the time from `s` to the reading `a` that `GetCPUTime` took.
pub get_cpu_time-update_cpu_time :
    (k : Kernel) (p : ℕ)
    → k.current_process ≡ some p
    → (x : State) × (j : Kernel) × (get_cpu_time k ≡ some (ldst x, j))
      × (time_of p (update_cpu_time j)
          ≡ (time_of p k
              + sub32 (k.clock k.readings) k.p_start
              + sub32 (k.clock (k.readings + 1)) k.p_start)
            % 2 ^ 32)
unfolding get_cpu_time
get_cpu_time-update_cpu_time k p e = (
  (told p k).exception_state,
  told p k,
  rw e refl,
  (update_cpu_time-charges (told p k) p e).0
      ∙ (ap (λ (x : Pcb). (x.p_time + sub32 (k.clock (k.readings + 1)) k.p_start) % 2 ^ 32)
            (write_self k.store.pcb p _)
          ∙ add_twice (time_of p k) (sub32 (k.clock k.readings) k.p_start)
              (sub32 (k.clock (k.readings + 1)) k.p_start)),
)
