-- ===== src/MockFhe/Rescaling.antt =====
-- Modulus switching in place in mock_fhe/evaluator.cc.
use heu.Base.{ℕ, zero, suc, ◌≡◌, refl, true, none}
use heu.MockFhe.Objects.{MockObj}
use heu.MockFhe.Evaluator.{Evaluator, is_ckks, mod_switch_inplace}

module _ {F : Type 0} where
  -- For CKKS no number of nested calls lets `ModSwitchInplace` return.
  pub mod_switch_inplace_diverges :
      (fuel : ℕ) (e : Evaluator) (a : MockObj F)
      → is_ckks e.schema ≡ true
      → mod_switch_inplace fuel e a ≡ none
  unfolding mod_switch_inplace
  mod_switch_inplace_diverges zero e a h = refl
  mod_switch_inplace_diverges (suc fuel) e a h = rw h (mod_switch_inplace_diverges fuel e a h)
