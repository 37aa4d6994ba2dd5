-- ===== src/Utils.antt =====
-- `memcpy` of phase2/utils.c, over a memory of bytes.
use progetto_so.Base.{
  ℕ, zero, suc, ◌+◌, ◌%◌, ◌^◌, ◌≤◌, ◌<◌, ◌≡◌, ◌⊎◌, inl, inr, refl, sym, ap, ◌∙◌, arith, write,
  write_self, write_ne, eq_cases,
}

-- The rounds left of the loop, from the index `i`.
unfoldable pub copy_from : ℕ → ℕ → ℕ → ℕ → (ℕ → ℕ) → ℕ → ℕ
copy_from zero i dest src mem = mem
copy_from (suc n) i dest src mem =
    copy_from n (i + 1) dest src (write mem ((dest + i) % 2 ^ 32) (mem ((src + i) % 2 ^ 32)))

-- The value returned and the memory after the call.
unfoldable pub memcpy : ℕ → ℕ → ℕ → (ℕ → ℕ) → ℕ × (ℕ → ℕ)
memcpy dest src n mem = (dest, copy_from n 0 dest src mem)

module _ (dest src : ℕ) where
  copy_from_outside :
      (n i : ℕ) (mem : ℕ → ℕ) (a : ℕ)
      → dest + i + n ≤ 2 ^ 32
      → (a < dest + i) ⊎ (dest + i + n ≤ a)
      → copy_from n i dest src mem a ≡ mem a
  unfolding copy_from
  copy_from_outside zero i mem a h o = refl
  copy_from_outside (suc n) i mem a h o =
      copy_from_outside n (i + 1) (write mem ((dest + i) % 2 ^ 32) (mem ((src + i) % 2 ^ 32))) a
        (omega arith) (omega arith)
      ∙ write_ne mem ((dest + i) % 2 ^ 32) (mem ((src + i) % 2 ^ 32)) a (omega arith)

  copy_from_inside :
      (n i : ℕ) (mem : ℕ → ℕ) (j : ℕ)
      → dest + i + n ≤ 2 ^ 32
      → src + i + n ≤ 2 ^ 32
      → (dest + i + n ≤ src) ⊎ (src + i + n ≤ dest)
      → i ≤ j
      → j < i + n
      → copy_from n i dest src mem (dest + j) ≡ mem (src + j)
  unfolding copy_from
  copy_from_inside zero i mem j hd hs apart le lt = absurd (omega arith)
  copy_from_inside (suc n) i mem j hd hs apart le lt =
      let byte = mem ((src + i) % 2 ^ 32) in
      let next = write mem ((dest + i) % 2 ^ 32) byte in
      let at_d : (dest + i) % 2 ^ 32 ≡ dest + i = omega arith in
      let at_s : (src + i) % 2 ^ 32 ≡ src + i = omega arith in
      elim (eq_cases j i) [
        | inl e ↦
            ap (λ x. copy_from n (i + 1) dest src next (dest + x)) e
            ∙ (copy_from_outside n (i + 1) next (dest + i) (omega arith) (inl (omega arith))
                ∙ (ap next (sym at_d)
                    ∙ (write_self mem ((dest + i) % 2 ^ 32) byte
                        ∙ (ap mem at_s ∙ ap (λ x. mem (src + x)) (sym e)))))
        | inr ne ↦
            copy_from_inside n (i + 1) next j (omega arith) (omega arith) (omega arith)
              (omega arith) (omega arith)
            ∙ write_ne mem ((dest + i) % 2 ^ 32) byte (src + j) (omega arith)
      ]

-- For two regions of `n` bytes inside the address space that do not overlap, `memcpy` returns the
-- destination, which holds the bytes that the source held; all other bytes are as they were.
pub memcpy_lem :
    (dest src n : ℕ) (mem : ℕ → ℕ)
    → dest + n ≤ 2 ^ 32
    → src + n ≤ 2 ^ 32
    → (dest + n ≤ src) ⊎ (src + n ≤ dest)
    → ((memcpy dest src n mem).0 ≡ dest)
      × ((i : ℕ) → i < n → (memcpy dest src n mem).1 (dest + i) ≡ mem (src + i))
      × ((a : ℕ) → (a < dest) ⊎ (dest + n ≤ a) → (memcpy dest src n mem).1 a ≡ mem a)
unfolding memcpy
memcpy_lem dest src n mem hd hs apart = (
  refl,
  (λ i lt.
      copy_from_inside dest src n 0 mem i (omega arith) (omega arith) (omega arith) (omega arith)
        (omega arith)),
  λ a o. copy_from_outside dest src n 0 mem a (omega arith) (omega arith),
)
