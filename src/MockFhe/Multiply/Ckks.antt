-- ===== src/MockFhe/Multiply/Ckks.antt =====
-- The CKKS loop, whichever operand it writes over.
use heu.Base.{
  ℕ, ◌+◌, ◌*◌, ◌≤◌, ◌<◌, ◌≡◌, refl, sym, ◌∙◌, ap, List, length, get_or, length-replicate, replicate,
  arith,
}
use heu.MockFhe.Slots.{Progress, slots-Progress}
use heu.MockFhe.Multiply.Defs.{
  Alias, separate, out_is_a, out_is_both, first_operand, second_operand, real_part, imag_part,
  ckks_loop, initial_output,
}

-- The loop leaves the parts of the product of the operands as they were at first.
abbrev pub Done : ℕ → List ℕ → List ℕ → List ℕ → List ℕ → Type 0
Done half a b out s = Progress half (λ i. i) (real_part half a b) (imag_part half a b) out half s

module _ (half : ℕ) (out a b : List ℕ) (room : 2 * half ≤ length out) (alias : Alias) where
  abbrev Before : ℕ → List ℕ → Type 0
  Before i s = Progress half (λ i. i) (real_part half a b) (imag_part half a b) out i s

  loop-Done :
      ((i : ℕ) (s : List ℕ)
        → i < half
        → Before i s
        → (get_or (first_operand alias a s) i 0 ≡ get_or a i 0)
          × (get_or (first_operand alias a s) (i + half) 0 ≡ get_or a (i + half) 0)
          × (get_or (second_operand alias b s) i 0 ≡ get_or b i 0)
          × (get_or (second_operand alias b s) (i + half) 0 ≡ get_or b (i + half) 0))
      → Done half a b out (ckks_loop half alias a b out)
  unfolding ckks_loop
  loop-Done same =
      slots-Progress half out room (λ i. i) (real_part half a b) (imag_part half a b)
        (λ i s. real_part half (first_operand alias a s) (second_operand alias b s) i)
        (λ i s. imag_part half (first_operand alias a s) (second_operand alias b s) i) (λ i h. h)
        (λ i j h k e. e) (λ i s h p. let (l, m, n, o) = same i s h p in rw (l, m, n, o) refl)
        (λ i s h p. let (l, m, n, o) = same i s h p in rw (l, m, n, o) refl)

-- Each way of calling the loop reads the operands as they were at first.
pub ckks_loop-Done :
    (half : ℕ) (alias : Alias) (a b : List ℕ)
    → 2 * half ≤ length a
    → (alias ≡ out_is_both → b ≡ a)
    → Done half a b (initial_output alias a) (ckks_loop half alias a b (initial_output alias a))
ckks_loop-Done half separate a b h same =
    loop-Done half (replicate (length a) 0) a b
      (omega (arith, length-replicate {A = ℕ} (length a) 0)) separate
      (λ i s lt p. (refl, refl, refl, refl))
ckks_loop-Done half out_is_a a b h same =
    loop-Done half a a b h out_is_a
      λ i s lt p. let old = p.left i lt (λ j k. omega arith) in (old.0, old.1, refl, refl)
ckks_loop-Done half out_is_both a b h same = loop-Done half a a b h out_is_both λ i s lt p.
    let old = p.left i lt (λ j k. omega arith) in
    let e : a ≡ b = sym (same refl) in
    (old.0, old.1, old.0 ∙ ap (λ t. get_or t i 0) e, old.1 ∙ ap (λ t. get_or t (i + half) 0) e)
