-- ===== src/Kernel/Time.antt =====
-- The accounting of processor time: `updateCpuTime` of phase2/utils.c, and `GetCPUTime` of
-- phase2/syscalls.c.
use progetto_so.Base.{ℕ, ◌+◌, ◌%◌, ◌^◌, ◌<◌, ◌≡◌, refl, ap, ◌∙◌, some, arith, write_self}
use progetto_so.Memory.{Pcb}
use progetto_so.Kernel.{Kernel, sub32, update_cpu_time}

-- The time charged to a process so far.
abbrev pub time_of : ℕ → Kernel → ℕ
time_of p k = (k.store.pcb p).p_time

pub update_cpu_time-charges :
    (k : Kernel) (p : ℕ)
    → k.current_process ≡ some p
    → (time_of p (update_cpu_time k)
        ≡ (time_of p k + sub32 (k.clock k.readings) k.p_start) % 2 ^ 32)
      × ((update_cpu_time k).p_start ≡ k.clock k.readings)
      × ((update_cpu_time k).readings ≡ k.readings + 1)
      × ((update_cpu_time k).clock ≡ k.clock)
      × ((update_cpu_time k).current_process ≡ k.current_process)
unfolding update_cpu_time
update_cpu_time-charges k p e =
    rw e (ap (λ (x : Pcb). x.p_time) (write_self k.store.pcb p _), refl, refl, refl, refl)

add_intervals :
    (t s a b : ℕ)
    → s < 2 ^ 32
    → a < 2 ^ 32
    → ((t + sub32 a s) % 2 ^ 32 + sub32 b a) % 2 ^ 32 ≡ (t + sub32 b s) % 2 ^ 32
add_intervals t s a b h₁ h₂ = omega arith

-- While the process `p` runs, two calls of `updateCpuTime` charge it the time from the start of its
-- interval to the second reading of the clock, modulo 2 ^ 32: no time is lost or counted twice.
pub update_cpu_time-add :
    (k : Kernel) (p : ℕ)
    → k.current_process ≡ some p
    → k.p_start < 2 ^ 32
    → k.clock k.readings < 2 ^ 32
    → time_of p (update_cpu_time (update_cpu_time k))
      ≡ (time_of p k + sub32 (k.clock (k.readings + 1)) k.p_start) % 2 ^ 32
update_cpu_time-add k p e h₁ h₂ =
    let (t, s, n, c, q) = update_cpu_time-charges k p e in
    (update_cpu_time-charges (update_cpu_time k) p (q ∙ e)).0
    ∙ rw (t, s, n, c)
        (add_intervals (time_of p k) k.p_start (k.clock k.readings) (k.clock (k.readings + 1)) h₁
          h₂)
