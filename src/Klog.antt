-- ===== src/Klog.antt =====
-- klog.c: the circular log buffer. The buffer is a function of the line and the character; a
-- character is its code. A string is the list of its codes up to the terminator.
pub mod Bounds
use progetto_so.Base.{
  ℕ, zero, suc, ◌+◌, ◌-◌, ◌/◌, ◌%◌, Option, none, some, List, [], ◌∷◌, ◌&&◌, ◌==◌, leb, ltb,
  if◌then◌else◌,
}

abbrev pub klog_lines : ℕ
klog_lines = 64

abbrev pub klog_line_size : ℕ
klog_line_size = 42

pub record Klog : Type 0 where
  pub line_index : ℕ
  pub char_index : ℕ
  pub buffer : ℕ → ℕ → ℕ

-- `klog_buffer[klog_line_index][klog_char_index] = c`
unfoldable pub put_char : ℕ → Klog → Klog
put_char c k = record k {
  buffer = λ l i. if (l == k.line_index) && (i == k.char_index) then c else k.buffer l i;
}

-- The loop that clears a line, from the index `i`.
unfoldable pub clear_from : ℕ → ℕ → ℕ → (ℕ → ℕ → ℕ) → ℕ → ℕ → ℕ
clear_from zero line i b = b
clear_from (suc n) line i b =
    clear_from n line (i + 1) (λ l j. if (l == line) && (j == i) then b' ' else b l j)

unfoldable pub next_line : Klog → Klog
next_line k =
    let line = (k.line_index + 1) % klog_lines in
    record { line_index = line; char_index = 0; buffer = clear_from klog_line_size line 0 k.buffer }

unfoldable pub next_char : Klog → Klog
next_char k =
    if leb klog_line_size (k.char_index + 1)
    then next_line (record k { char_index = 0 })
    else record k { char_index = k.char_index + 1 }

unfoldable pub klog_print : List ℕ → Klog → Klog
klog_print [] k = k
klog_print (c ∷ cs) k = klog_print cs (if c == b'\n' then next_line k else next_char (put_char c k))

-- `digits[d]` for "0123456789ABCDEF", whose first ten are those of the decimal table too.
unfoldable pub digit : ℕ → ℕ
digit d = if ltb d 10 then b'0' + d else b'A' + (d - 10)

-- The `do` loop that prints the digits of `num` in the base, the last one first.
unfoldable pub digits_from : ℕ → ℕ → ℕ → Klog → Option Klog
digits_from base zero num k = none
digits_from base (suc fuel) num k =
    let j = next_char (put_char (digit (num % base)) k) in
    let rest = digits_from base fuel (num / base) j in if num / base == 0 then some j else rest

-- 32 rounds are enough for an `unsigned int`.
unfoldable pub klog_print_dec : ℕ → Klog → Option Klog
klog_print_dec num k =
    if leb 10 num
    then digits_from 10 32 num k
    else (let buff = num % 10 in
        let j = next_char (put_char (digit ((num / 10) % 10)) k) in
        some (next_char (put_char (digit buff) j)))

unfoldable pub klog_print_hex : ℕ → Klog → Option Klog
klog_print_hex num k = digits_from 16 32 num k
