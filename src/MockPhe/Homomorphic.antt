-- ===== src/MockPhe/Homomorphic.antt =====
-- The evaluator of mock_phe keeps the promises of a scheme.
use heu.Base.{ℕ, ◌≤◌, ◌≡◌, refl, ap, ap₂, le→leb, ok, err}
use heu.Base.{not_supported}
use heu.Base.Int.{ℤ, neg_ℤ, ◌+ℤ◌, ◌*ℤ◌}
use heu.Spi.Words.{WordOps}
use heu.Spi.Words.Refinement.{IsScheme}
use heu.MockPhe as M
use heu.MockPhe.{Ciphertext}

module _ (bit_count : ℤ → ℕ) (key_size : ℕ)
    (opposite_bits : (x : ℤ) → bit_count (neg_ℤ x) ≡ bit_count x) where
  -- The sketch for schemes without a product of ciphertexts throws for it.
  abbrev pub evaluator : WordOps ℤ Ciphertext
  evaluator = record {
    negate_p = λ x. ok (neg_ℤ x);
    negate_c = λ x. ok (M.negate bit_count key_size x);
    add_pp = λ x y. ok (x +ℤ y);
    add_cp = M.add_plain bit_count key_size;
    add_cc = λ x y. ok (M.add bit_count key_size x y);
    add_inplace_cp = M.add_plain_inplace bit_count key_size;
    add_inplace_cc = λ x y. ok (M.add bit_count key_size x y);
    mul_pp = λ x y. ok (x *ℤ y);
    mul_cp = λ x y. ok (M.mul_plain bit_count key_size x y);
    mul_cc = λ x y. err not_supported;
  }

  abbrev pub Fits : ℤ → ℤ → Type 0
  Fits m p = (p ≡ m) × (bit_count p ≤ key_size)

  abbrev pub Same : ℤ → ℤ → Type 0
  Same m p = p ≡ m

  abbrev pub Of : ℤ → Ciphertext → Type 0
  Of m ct = M.decrypt bit_count key_size ct ≡ m

  pub evaluator-IsScheme : IsScheme evaluator Fits Same Of
  unfolding M.negate M.add_plain M.add_plain_inplace M.add M.decrypt
  evaluator-IsScheme = record {
    negate_p_is = λ m x h. (neg_ℤ x, refl, (ap neg_ℤ h.0, rw (opposite_bits x) h.1));
    negate_c_is = λ m x h. (_, refl, ap neg_ℤ h);
    add_pp_is = λ m k x y h g. (_, refl, ap₂ (λ (a b : ℤ). a +ℤ b) h.0 g.0);
    add_cp_is = λ m k x y h g.
        (record { bn = x.bn +ℤ y }, rw (le→leb _ _ g.1) refl, ap₂ (λ (a b : ℤ). a +ℤ b) h g.0);
    add_cc_is = λ m k x y h g. (_, refl, ap₂ (λ (a b : ℤ). a +ℤ b) h g);
    add_inplace_cp_is = λ m k x y h g.
        (record { bn = x.bn +ℤ y }, rw (le→leb _ _ g.1) refl, ap₂ (λ (a b : ℤ). a +ℤ b) h g.0);
    add_inplace_cc_is = λ m k x y h g. (_, refl, ap₂ (λ (a b : ℤ). a +ℤ b) h g);
  }
