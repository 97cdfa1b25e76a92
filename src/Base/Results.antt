-- ===== src/Base/Results.antt =====
-- Results of code that throws: each `YACL_ENFORCE` and each `YACL_THROW` is an error of its own.
use mathlib.Core.Path.{◌≡◌, refl}
use mathlib.Core.Bool.{Bool, true, false}

pub data Error : Type 0 where
  illegal_input scale_mismatch illegal_degree zero_scale key_disabled zero_exponent : Error
  wrong_schema step_too_large no_space out_of_range illegal_plaintext not_supported : Error
  hashmap_full too_big out_of_fuel unknown_schema idx_overflow not_enabled : Error
  index_error squeeze_error dim_error shape_error empty_tensor not_reached : Error
  content_error type_error missing_arg plaintext_out_of_range cofactor_too_large : Error
  invalid_ciphertext number_corrupted overflow_detected not_paired out_of_draws : Error

pub data Result {ℓ} (A : Type ℓ) : Type ℓ where
  ok : A → Result A
  err : Error → Result A

-- YACL_ENFORCE(test).
abbrev pub enforce : Bool → Error → Result (Unit {0})
enforce false error = err error
enforce true error = ok tt

module _ {ℓ κ} {A : Type ℓ} {B : Type κ} where
  infixl 5 ◌>>=◌
  abbrev pub ◌>>=◌ : Result A → (A → Result B) → Result B
  err error >>= next = err error
  ok result >>= next = next result

infixl 5 ◌>>◌
abbrev pub ◌>>◌ {κ} : {B : Type κ} → Result (Unit {0}) → Result B → Result B
first >> next = first >>= (λ done. next)

pub ok-injective {ℓ} : {A : Type ℓ} (x y : A) → ok x ≡ ok y → x ≡ y
ok-injective x y h = cc

pub enforce-eq-ok : (test : Bool) (e : Error) {u : Unit {0}} → enforce test e ≡ ok u → test ≡ true
enforce-eq-ok false e h = cc
enforce-eq-ok true e h = refl

module _ {ℓ κ} {A : Type ℓ} {B : Type κ} (next : A → Result B) {b : B} where
  pub >>=-eq-ok : (m : Result A) → (m >>= next) ≡ ok b → (a : A) × (m ≡ ok a) × (next a ≡ ok b)
  >>=-eq-ok (err error) h = cc
  >>=-eq-ok (ok a) h = (a, refl, h)
