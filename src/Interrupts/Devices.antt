-- ===== src/Interrupts/Devices.antt =====
-- The interrupting device of phase2/interrupts.c, and the semaphore that it shares with `DoIO` of
-- phase2/syscalls.c.
use Prim.Native.Nat.{bit_and}
use progetto_so.Base.{
  ℕ, subst, Bool, zero, suc, ◌&&◌, ◌-◌, ◌*◌, ◌+◌, ◌/◌, ◌%◌, ◌^◌, ◌≤◌, ◌<◌, ◌≡◌, refl, sym, inl, inr,
  Bool-cases, Option, none, some, true, false, ◌==◌, if◌then◌else◌, arith, eq_cases, ==_ne,
}
use progetto_so.Kernel.{Platform, Kernel}
use progetto_so.Syscalls.Common.{write_word}
use progetto_so.Syscalls.Semaphores.{device_index}
use progetto_so.Interrupts.{device_base, semaphore_index, acknowledge, scan_bitmap}

device_index-command :
    (line dev : ℕ)
    → 3 ≤ line
    → line ≤ 7
    → dev < 8
    → device_index (device_base line dev + 4) ≡ semaphore_index line dev
unfolding device_index
device_index-command line dev h₁ h₂ h₃ = ground arith

device_index-transmitter :
    (dev : ℕ) → dev < 8 → device_index (device_base 7 dev + 12) ≡ semaphore_index 7 dev + 8
unfolding device_index
device_index-transmitter dev h = ground arith

-- A device line with a device's interrupt pending has its bit set in the bitmap of the line.
abbrev pub pending : ℕ → ℕ → Bool
pending bitmap i = (bitmap / 2 ^ i) % 2 == 1

-- What the scan of `n` bits from the bit `i` returns.
abbrev pub Scanned : ℕ → ℕ → ℕ → Option ℕ → Type 0
Scanned bitmap i n none = (j : ℕ) → i ≤ j → j < i + n → pending bitmap j ≡ false
Scanned bitmap i n (some d) =
    (i ≤ d)
    × (d < i + n)
    × (pending bitmap d ≡ true)
    × ((j : ℕ) → i ≤ j → j < d → pending bitmap j ≡ false)

scan_step :
    (bitmap i n : ℕ) (o : Option ℕ)
    → pending bitmap i ≡ false
    → Scanned bitmap (i + 1) n o
    → Scanned bitmap i (suc n) o
scan_step bitmap i n none off h =
    λ j a b. elim (eq_cases j i) [ inl e ↦ rw e off | inr ne ↦ h j (omega arith) (omega arith) ]
scan_step bitmap i n (some d) off (a, b, on, h) = (
  omega arith,
  omega arith,
  on,
  λ j c e. elim (eq_cases j i) [ inl q ↦ rw q off | inr ne ↦ h j (omega arith) e ],
)

-- The scan finds the lowest device of the line whose interrupt is pending: the one it returns is
-- pending and none before it is, and if it returns none then none of the scanned ones is.
pub scan_bitmap-Scanned : (n i bitmap : ℕ) → Scanned bitmap i n (scan_bitmap n i bitmap)
unfolding scan_bitmap
scan_bitmap-Scanned zero i bitmap = λ j a b. absurd (let q : ⊥ = omega arith in q)
scan_bitmap-Scanned (suc n) i bitmap = elim (Bool-cases (pending bitmap i)) [
  | inl on ↦
      subst (λ b. Scanned bitmap i (suc n) (if b then some i else scan_bitmap n (i + 1) bitmap))
        (sym on) (omega arith, omega arith, on, λ j a b. absurd (let q : ⊥ = omega arith in q))
  | inr off ↦
      subst (λ b. Scanned bitmap i (suc n) (if b then some i else scan_bitmap n (i + 1) bitmap))
        (sym off)
        (scan_step bitmap i n (scan_bitmap n (i + 1) bitmap) off
          (scan_bitmap-Scanned n (i + 1) bitmap))
]

-- The registers of the device `dev` of `line` take 16 bytes, those of a line 128, from 0x10000054 on
-- for the line 3. A terminal has a receiver and, behind its registers, a transmitter. `sent` says
-- that the device is a terminal whose transmitter has sent a character.
abbrev pub registers : ℕ → ℕ → ℕ
registers line dev = 0x10000054 + (line - 3) * 0x80 + dev * 0x10

abbrev pub sent : Platform → ℕ → ℕ → Kernel → Bool
sent m line dev k =
    (line == 7) && (bit_and (k.word (registers line dev + m.transm_status)) 0xff == 5)

abbrev pub command_register : ℕ → ℕ → Bool → ℕ
command_register line dev transmitter = registers line dev + (if transmitter then 12 else 4)

abbrev pub status_register : Platform → ℕ → ℕ → Bool → ℕ
status_register m line dev transmitter =
    registers line dev
    + (if transmitter then m.transm_status else if line == 7 then m.recv_status else m.status)

-- The status that is read, the semaphore that is signalled and the kernel after an acknowledgement.
abbrev pub Acknowledged : Platform → ℕ → ℕ → Kernel → ℕ × ℕ × Kernel → Type 0
Acknowledged m line dev k (status, index, j) =
    (status ≡ k.word (status_register m line dev (sent m line dev k)))
    × (index ≡ device_index (command_register line dev (sent m line dev k)))
    × (index < 48)
    × (index % 8 ≡ dev)
    × (index / 8 ≡ line - 3 + (if sent m line dev k then 1 else 0))
    × (j ≡ write_word (command_register line dev (sent m line dev k)) 1 k)

module _ (m : Platform) (line dev : ℕ) (k : Kernel) where
  -- Let the command register of a device, and of a terminal's receiver, stand 4 bytes after the
  -- device's base address, and that of a transmitter 12. For the device `dev` below 8 of a line from
  -- 3 to 7, `handleDevice` reads the status of this device and acknowledges by writing 1 to its
  -- command register and to no other word: those of the transmitter, if it is a terminal whose
  -- transmitter has sent a character, else those of the receiver or of the device. The semaphore that
  -- it signals is the one that `DoIO` on this command register waits at; it is one of the 48
  -- semaphores of devices, the one numbered `dev` in the group of 8 of the line, or in the group
  -- after it for a transmitter.
  pub acknowledge-device_index :
      m.command ≡ 4
      → m.recv_command ≡ 4
      → m.transm_command ≡ 12
      → 3 ≤ line
      → line ≤ 7
      → dev < 8
      → Acknowledged m line dev k (acknowledge m line dev k)
  unfolding acknowledge
  acknowledge-device_index c rc tc h₁ h₂ h₃ = elim (eq_cases line 7) [
    | inl e ↦
        rw (e)
          (elim (Bool-cases (bit_and (k.word (device_base 7 dev + m.transm_status)) 0xff == 5)) [
            | inl yes_it ↦
                rw (yes_it, tc)
                  (
                    refl,
                    sym (device_index-transmitter dev h₃),
                    omega arith,
                    omega arith,
                    omega arith,
                    refl,
                  )
            | inr no_it ↦
                rw (no_it, rc)
                  (
                    refl,
                    sym (device_index-command 7 dev (omega arith) (omega arith) h₃),
                    omega arith,
                    omega arith,
                    omega arith,
                    refl,
                  )
          ])
    | inr ne ↦
        rw (==_ne line 7 ne, c)
          (
            refl,
            sym (device_index-command line dev h₁ h₂ h₃),
            omega arith,
            omega arith,
            omega arith,
            refl,
          )
  ]
