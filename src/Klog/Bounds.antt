-- ===== src/Klog/Bounds.antt =====
-- No write of klog.c falls outside the buffer, and the printing of a number ends.
use progetto_so.Base.{
  ℕ, ◌⊎◌, ◌∙◌, inl, inr, ◌==◌, leb, if◌then◌else◌, Bool-cases, zero, suc, ◌+◌, ◌/◌, ◌%◌, ◌^◌, ◌≤◌,
  ◌<◌, ◌≡◌, refl, List, [], ◌∷◌, some, Option, arith,
}
use progetto_so.Klog.{
  Klog, clear_from, klog_lines, klog_line_size, put_char, next_line, next_char, klog_print, digit,
  digits_from, klog_print_dec, klog_print_hex,
}

-- The position to write to is in the buffer.
pub record IsInside (k : Klog) : Type 0 where
  pub line : k.line_index < klog_lines
  pub char : k.char_index < klog_line_size

-- From `k` to `j` nothing was written outside the buffer, and the next write is inside it.
pub record Safe (k j : Klog) : Type 0 where
  pub inside : IsInside j
  pub outside : (l i : ℕ) → (klog_lines ≤ l) ⊎ (klog_line_size ≤ i) → j.buffer l i ≡ k.buffer l i

Safe-trans : (k j i : Klog) → Safe k j → Safe j i → Safe k i
Safe-trans k j i s t = record {
  inside = t.inside;
  outside = λ l c h. t.outside l c h ∙ s.outside l c h;
}

clear_from-outside :
    (n line i : ℕ) (b : ℕ → ℕ → ℕ) (l c : ℕ)
    → line < klog_lines
    → i + n ≤ klog_line_size
    → (klog_lines ≤ l) ⊎ (klog_line_size ≤ c)
    → clear_from n line i b l c ≡ b l c
unfolding clear_from
clear_from-outside zero line i b l c h₁ h₂ h = refl
clear_from-outside (suc n) line i b l c h₁ h₂ h =
    clear_from-outside n line (i + 1) _ l c h₁ (omega arith) h ∙ ground (arith, h)

next_line-Safe : (k : Klog) → Safe k (next_line k)
unfolding next_line
next_line-Safe k = record {
  inside = record { line = omega arith; char = omega arith };
  outside = λ l c h.
      clear_from-outside klog_line_size ((k.line_index + 1) % klog_lines) 0 k.buffer l c
        (omega arith) (omega arith) h;
}

next_char-Safe : (k : Klog) → IsInside k → Safe k (next_char k)
unfolding next_char
next_char-Safe k i = elim (Bool-cases (leb klog_line_size (k.char_index + 1))) [
  | inl full ↦ rw full (
      let s = next_line-Safe (record k { char_index = 0 }) in
      record { inside = s.inside; outside = s.outside })
  | inr room ↦
      rw room
        (record { inside = record { line = i.line; char = ground arith }; outside = λ _ _ _. refl })
]

put_char-Safe : (c : ℕ) (k : Klog) → IsInside k → Safe k (put_char c k)
unfolding put_char
put_char-Safe c k i =
    let h₁ = i.line in
    let h₂ = i.char in
    record {
      inside = record { line = i.line; char = i.char };
      outside = λ l j h. ground (arith, h);
    }

print_one-Safe : (c : ℕ) (k : Klog) → IsInside k → Safe k (next_char (put_char c k))
print_one-Safe c k i =
    let s = put_char-Safe c k i in
    Safe-trans k (put_char c k) (next_char (put_char c k)) s
      (next_char-Safe (put_char c k) s.inside)

-- Printing a string from a position in the buffer never writes outside the buffer, however long the
-- string is, and leaves the position inside.
pub klog_print-Safe : (cs : List ℕ) (k : Klog) → IsInside k → Safe k (klog_print cs k)
unfolding klog_print
klog_print-Safe [] k i = record { inside = i; outside = λ _ _ _. refl }
klog_print-Safe (c ∷ cs) k i =
    let j = if c == b'\n' then next_line k else next_char (put_char c k) in
    let s : Safe k j = elim (Bool-cases (c == b'\n')) [
      | inl newline ↦ rw newline (next_line-Safe k)
      | inr other ↦ rw other (print_one-Safe c k i)
    ] in
    Safe-trans k j (klog_print cs j) s (klog_print-Safe cs j s.inside)

-- The outcome of printing a number: it ends, and is safe.
abbrev pub Printed : Klog → Option Klog → Type 0
Printed k o = (j : Klog) × (o ≡ some j) × Safe k j

module _ (base : ℕ) (halves : (n : ℕ) → n / base ≤ n / 2) where
  digits_from-Printed :
      (fuel num : ℕ) (k : Klog)
      → num < 2 ^ suc fuel
      → IsInside k
      → Printed k (digits_from base (suc fuel) num k)
  unfolding digits_from
  digits_from-Printed zero num k h i =
      let q = halves num in
      let z : num / base ≡ 0 = omega arith in
      (
        next_char (put_char (digit (num % base)) k),
        rw z refl,
        print_one-Safe (digit (num % base)) k i,
      )
  digits_from-Printed (suc fuel) num k h i =
      let j = next_char (put_char (digit (num % base)) k) in
      let s = print_one-Safe (digit (num % base)) k i in
      elim (Bool-cases (num / base == 0)) [
        | inl last ↦ (j, rw last refl, s)
        | inr more ↦
            let q = halves num in
            let (e, run, t) = digits_from-Printed fuel (num / base) j (omega arith) s.inside in
            (e, rw (more, run) refl, Safe-trans k j e s t)
      ]

-- Printing an `unsigned int` in decimal from a position in the buffer ends, never writes outside the
-- buffer, and leaves the position inside.
pub klog_print_dec-Printed :
    (num : ℕ) (k : Klog) → num < 2 ^ 32 → IsInside k → Printed k (klog_print_dec num k)
unfolding klog_print_dec
klog_print_dec-Printed num k h i = elim (Bool-cases (leb 10 num)) [
  | inl many ↦ rw many (digits_from-Printed 10 (λ n. omega arith) 31 num k h i)
  | inr few ↦
      let j = next_char (put_char (digit ((num / 10) % 10)) k) in
      let s = print_one-Safe (digit ((num / 10) % 10)) k i in
      let t = print_one-Safe (digit (num % 10)) j s.inside in
      rw few (
        next_char (put_char (digit (num % 10)) j),
        refl,
        Safe-trans k j (next_char (put_char (digit (num % 10)) j)) s t,
      )
]

-- Printing an `unsigned int` in hexadecimal from a position in the buffer ends, never writes
-- outside the buffer, and leaves the position inside.
pub klog_print_hex-Printed :
    (num : ℕ) (k : Klog) → num < 2 ^ 32 → IsInside k → Printed k (klog_print_hex num k)
unfolding klog_print_hex
klog_print_hex-Printed num k h i = digits_from-Printed 16 (λ n. omega arith) 31 num k h i
