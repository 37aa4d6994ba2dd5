-- ===== src/Nucleus/Devices.antt =====
-- The devices of phase2/interrupts.c, every interrupt, and the invariant of the whole kernel.
use Prim.Native.Nat.{bit_and}
use progetto_so.Base.{
  ◌-◌, ◌*◌, ℕ, ◌+◌, ◌^◌, ◌≡◌, ◌≢◌, ◌⊎◌, inl, inr, ◌∙◌, eq_cases, ==_iff, ==_ne, refl, sym, ap,
  subst, Option, some, none, ◌==◌, ◌||◌, write, if_ind, leb, if◌then◌else◌, ◌>>=◌,
}
use progetto_so.Memory.{Store}
use progetto_so.Kernel.{
  Platform, Kernel, Outcome, panic, incr, with_store, scheduler, update_cpu_time,
}
use progetto_so.Asl.{remove_blocked}
use progetto_so.Terminate.{device_semaphore}
use progetto_so.Syscalls.Common.{resume, write_word}
use progetto_so.Interrupts.{
  ready_served, device_base, semaphore_index, acknowledge, signal_device, resume_timed, scan_bitmap,
  resume_or_schedule, handle_device, interrupt_handler,
}
use progetto_so.Nucleus.{Holds, IsKernel, Keeps, running}
use progetto_so.Nucleus.Ready.{IsKernel-of, scheduler-Keeps, resume-Keeps}
use progetto_so.Nucleus.Pcbs.{IsNucleus-set_pcb}
use progetto_so.Nucleus.Sleep.{Woken, remove_blocked-Woken}
use progetto_so.Nucleus.Timers.{
  ready_unblocked-Holds, update_cpu_time-Holds, update_cpu_time-IsKernel, resume_or_schedule-Keeps,
  handle_plt-Keeps, handle_pseudo_clock-Keeps,
}

-- A step of a handler returns with the invariant.
Served : Option Kernel → Type 0
Served none = ⊥
Served (some k) = IsKernel k

-- The process that waited for the device gets the status and becomes ready.
ready_served-Served :
    (status : ℕ) (k : Kernel) (o : Option (Option ℕ × Store))
    → IsKernel k
    → Woken k.store k.process_count (running k.current_process) o
    → Served (o >>= ready_served status k)
unfolding Served
ready_served-Served status k none n w = elim w [ ]
ready_served-Served status k (some (none, s)) n w = IsKernel-of (with_store k s) w refl refl n
ready_served-Served status k (some (some p, s)) n w =
    let q = s.pcb p in
    let x = record q { p_s = record (q.p_s) { reg_a0 = status } } in
    let t = record s { pcb = write s.pcb p x } in
    let j = record k { store = t } in
    let (i, run, h, c, _) =
      ready_unblocked-Holds j t p (running k.current_process) (IsNucleus-set_pcb w p x refl refl) in
    subst Served (sym run) (IsKernel-of i refl refl (ap running c) h)

-- The code is none of those of the two timers and of the five lines of devices, and the handler
-- panics with the kernel untouched.
abbrev pub Unserved : ℕ → Kernel → Outcome → Type 0
Unserved code k o =
    (code ≢ 7)
    × (code ≢ 3)
    × (code ≢ 17)
    × (code ≢ 18)
    × (code ≢ 19)
    × (code ≢ 20)
    × (code ≢ 21)
    × (o ≡ some (panic, k))

otherwise :
    (P : Outcome → Type 0) (a b : ℕ) (x y : Outcome)
    → P x
    → (a ≢ b → P y)
    → P (if a == b then x else y)
otherwise P a b x y hx hy = elim (eq_cases a b) [
  | inl e ↦ subst (λ t. P (if t then x else y)) (sym ((==_iff a b).1 e)) hx
  | inr ne ↦ subst (λ t. P (if t then x else y)) (sym (==_ne a b ne)) (hy ne)
]

module _ (m : Platform) where
  acknowledge-IsKernel :
      (line dev : ℕ) (k : Kernel) → IsKernel k → IsKernel (acknowledge m line dev k).2
  unfolding acknowledge
  acknowledge-IsKernel line dev k n =
      let base = device_base line dev in
      let index = semaphore_index line dev in
      let P : ℕ × ℕ × Kernel → Type 0 = λ x. IsKernel x.2 in
      if_ind P (line == 7)
        (if bit_and (k.word (base + m.transm_status)) 0xff == 5
          then (
            k.word (base + m.transm_status),
            index + 8,
            write_word (base + m.transm_command) 1 k,
          )
          else (k.word (base + m.recv_status), index, write_word (base + m.recv_command) 1 k))
        (k.word (base + m.status), index, write_word (base + m.command) 1 k)
        (if_ind P (bit_and (k.word (base + m.transm_status)) 0xff == 5)
          (k.word (base + m.transm_status), index + 8, write_word (base + m.transm_command) 1 k)
          (k.word (base + m.recv_status), index, write_word (base + m.recv_command) 1 k) n n)
        n

  signal_device-Served :
      (status index : ℕ) (k : Kernel) → IsKernel k → Served (signal_device m (status, index, k))
  unfolding signal_device Served
  signal_device-Served status index k n =
      let sem = device_semaphore m index in
      let j = write_word sem (incr (k.word sem)) k in
      if_ind Served ((j.word sem == 0) || leb (2 ^ 31) (j.word sem))
        (remove_blocked sem j.store >>= ready_served status j) (some j)
        (ready_served-Served status j (remove_blocked sem j.store) n
          (remove_blocked-Woken j.store j.process_count sem (running k.current_process) n))
        n

  resume_timed-Keeps : (o : Option Kernel) → Served o → Keeps (o >>= resume_timed m)
  unfolding Served
  resume_timed-Keeps none n = elim n [ ]
  resume_timed-Keeps (some k) n = at k.current_process refl
    where
      at :
          (o : Option ℕ)
          → k.current_process ≡ o
          → Keeps (elim o [ none ↦ scheduler k | some _ ↦ resume (update_cpu_time k) ])
      at none e = scheduler-Keeps k e (subst (λ c. Holds k (running c)) e n)
      at (some p) e =
          resume-Keeps (update_cpu_time k) p
            ((update_cpu_time-Holds k (running k.current_process) n).1 ∙ e)
            (update_cpu_time-IsKernel k n)

  handle_device-Keeps : (line : ℕ) (k : Kernel) → IsKernel k → Keeps (handle_device m line k)
  unfolding handle_device
  handle_device-Keeps line k n = at (scan_bitmap 8 0 (k.word (0x10000040 + (line - 3) * 4)))
    where
      at :
          (o : Option ℕ)
          → Keeps (elim o [
            | none ↦ resume_or_schedule k
            | some dev ↦ signal_device m (acknowledge m line dev k) >>= resume_timed m
          ])
      at none = resume_or_schedule-Keeps k n
      at (some dev) =
          let (status, index, j) = acknowledge m line dev k in
          resume_timed-Keeps (signal_device m (status, index, j))
            (signal_device-Served status index j (acknowledge-IsKernel line dev k n))

  -- An interrupt that the handler serves ends with the invariant and a fitting exit; at any other the
  -- handler panics and leaves the kernel as it was.
  pub interrupt_handler-Keeps :
      (cause : ℕ) (k : Kernel)
      → IsKernel k
      → Keeps (interrupt_handler m cause k)
        ⊎ Unserved (bit_and cause m.cause_exccode_mask) k (interrupt_handler m cause k)
  unfolding interrupt_handler
  interrupt_handler-Keeps cause k n =
      let code = bit_and cause m.cause_exccode_mask in
      let P : Outcome → Type 0 = λ o. Keeps o ⊎ Unserved code k o in
      otherwise P code 7 _ _ (inl (handle_plt-Keeps k n)) (λ h₁.
        otherwise P code 3 _ _ (inl (handle_pseudo_clock-Keeps m k n)) (λ h₂.
          otherwise P code 17 _ _ (inl (handle_device-Keeps 3 k n)) (λ h₃.
            otherwise P code 18 _ _ (inl (handle_device-Keeps 4 k n)) (λ h₄.
              otherwise P code 19 _ _ (inl (handle_device-Keeps 5 k n)) (λ h₅.
                otherwise P code 20 _ _ (inl (handle_device-Keeps 6 k n)) (λ h₆.
                  otherwise P code 21 _ _ (inl (handle_device-Keeps 7 k n))
                    (λ h₇. inr (h₁, h₂, h₃, h₄, h₅, h₆, h₇, refl))))))))
