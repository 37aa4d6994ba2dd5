-- ===== src/Nucleus/Calls.antt =====
-- The dispatch of phase2/syscalls.c and of phase2/exceptions.c, and the invariant of the whole kernel.
use Prim.Native.Nat.{bit_and}
use progetto_so.Base.{
  ℕ, ◌≡◌, ◌≢◌, ◌⊎◌, refl, true, inl, inr, Bool-cases, false, some, if_ind, ◌==◌, leb, ◌&&◌, ◌||◌,
  if◌then◌else◌, ==_iff,
}
use progetto_so.Kernel.{Platform, Kernel, Outcome}
use progetto_so.Terminate.{device_semaphore}
use progetto_so.Traps.{
  generalexcept, pgfaultexcept, pass_up_or_die, trap_exception_handler, tlb_exception_handler,
}
use progetto_so.Syscalls.{
  minus, serve, syscall_exception_handler, mstatus_mpp_mask, mstatus_mpp_m, privinstr,
}
use progetto_so.Syscalls.Semaphores.{device_index}
use progetto_so.Exceptions.{exception_handler}
use progetto_so.Nucleus.{IsKernel, Keeps}
use progetto_so.Nucleus.Services.{
  passeren-Keeps, verhogen-Keeps, do_io-Keeps, get_cpu_time-Keeps, wait_for_clock-Keeps,
  get_support_data-Keeps, get_process_id-Keeps, yield-Keeps,
}
use progetto_so.Nucleus.Devices.{Unserved, interrupt_handler-Keeps}
use progetto_so.Nucleus.Created.{create_process-Keeps}
use progetto_so.Nucleus.Fates.{pass_up_or_die-Keeps, terminate_process-Keeps}

-- A branch on the service number, which is known inside it.
branch : (a b : ℕ) (x y : Outcome) → (a ≡ b → Keeps x) → Keeps y → Keeps (if a == b then x else y)
branch a b x y hx hy = elim (Bool-cases (a == b)) [
  | inl yes_it ↦ rw yes_it (hx ((==_iff a b).0 yes_it))
  | inr no_it ↦ rw no_it hy
]

module _ (m : Platform) (k : Kernel) (n : IsKernel k) (p : ℕ) (e : k.current_process ≡ some p) where
  -- Every service keeps the invariant and ends with a fitting exit.
  serve-Keeps :
      (id : ℕ)
      → (id ≡ minus 3 → k.exception_state.reg_a1 ≢ 0)
      → (id ≡ minus 5 → device_semaphore m (device_index k.exception_state.reg_a1) ≢ 0)
      → (id ≡ minus 7 → device_semaphore m 48 ≢ 0)
      → Keeps (serve m id k)
  unfolding serve
  serve-Keeps id h₃ h₅ h₇ =
      branch id (minus 1) _ _ (λ _. create_process-Keeps k p e n)
        (branch id (minus 2) _ _ (λ _. terminate_process-Keeps m k n p e)
          (branch id (minus 3) _ _ (λ d. passeren-Keeps k p e n (h₃ d))
            (branch id (minus 4) _ _ (λ _. verhogen-Keeps k p e n)
              (branch id (minus 5) _ _ (λ d. do_io-Keeps k p e n m (h₅ d))
                (branch id (minus 6) _ _ (λ _. get_cpu_time-Keeps k p e n)
                  (branch id (minus 7) _ _ (λ d. wait_for_clock-Keeps k p e n m (h₇ d))
                    (branch id (minus 8) _ _ (λ _. get_support_data-Keeps k p e n)
                      (branch id (minus 9) _ _ (λ _. get_process_id-Keeps k p e n)
                        (branch id (minus 10) _ _ (λ _. yield-Keeps k p e n)
                          (pass_up_or_die-Keeps m k n p e generalexcept))))))))))

  syscall_exception_handler-Keeps :
      (k.exception_state.reg_a0 ≡ minus 3 → k.exception_state.reg_a1 ≢ 0)
      → (k.exception_state.reg_a0 ≡ minus 5
          → device_semaphore m (device_index k.exception_state.reg_a1) ≢ 0)
      → (k.exception_state.reg_a0 ≡ minus 7 → device_semaphore m 48 ≢ 0)
      → Keeps (syscall_exception_handler m k)
  unfolding syscall_exception_handler
  syscall_exception_handler-Keeps h₃ h₅ h₇ =
      let j = record k { exception_state = record (k.exception_state) { cause = privinstr } } in
      if_ind Keeps (bit_and k.exception_state.status mstatus_mpp_mask == mstatus_mpp_m)
        (serve m k.exception_state.reg_a0 k) (pass_up_or_die m generalexcept j)
        (serve-Keeps k.exception_state.reg_a0 h₃ h₅ h₇)
        (pass_up_or_die-Keeps m j n p e generalexcept)

pub exception_handler-Keeps :
    (m : Platform) (cause : ℕ) (k : Kernel)
    → IsKernel k
    → (m.cause_is_int cause ≡ false → (p : ℕ) × (k.current_process ≡ some p))
    → (k.exception_state.reg_a0 ≡ minus 3 → k.exception_state.reg_a1 ≢ 0)
    → (k.exception_state.reg_a0 ≡ minus 5
        → device_semaphore m (device_index k.exception_state.reg_a1) ≢ 0)
    → (k.exception_state.reg_a0 ≡ minus 7 → device_semaphore m 48 ≢ 0)
    → Keeps (exception_handler m cause k)
      ⊎ ((m.cause_is_int cause ≡ true)
          × Unserved (bit_and cause m.cause_exccode_mask) k (exception_handler m cause k))
unfolding exception_handler tlb_exception_handler trap_exception_handler
exception_handler-Keeps m cause k n run h₃ h₅ h₇ = elim (Bool-cases (m.cause_is_int cause)) [
  | inl yes_it ↦
      rw yes_it
        (elim (interrupt_handler-Keeps m cause k n) [ inl h ↦ inl h | inr u ↦ inr (refl, u) ])
  | inr no_it ↦
      (let (p, e) = run no_it in
        let code = bit_and cause m.cause_exccode_mask in
        rw no_it (
          inl (
            if_ind Keeps ((code == 8) || (code == 11)) _ _
              (syscall_exception_handler-Keeps m k n p e h₃ h₅ h₇)
              (if_ind Keeps (leb 24 code && leb code 28) (tlb_exception_handler m k)
                (trap_exception_handler m k) (pass_up_or_die-Keeps m k n p e pgfaultexcept)
                (pass_up_or_die-Keeps m k n p e generalexcept)))))
]
