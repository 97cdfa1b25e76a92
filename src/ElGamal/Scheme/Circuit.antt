-- ===== src/ElGamal/Scheme/Circuit.antt =====
-- Runs of the encryptor and the evaluator, and the arithmetic on plaintexts that they stand for.
use heu.Base.{ℕ, ◌+◌, ◌≤◌, Result, ok, ◌>>=◌}
use heu.Base.Int.{ℤ, pos, pos_part, neg_part, neg_ℤ, ◌+ℤ◌, ◌-ℤ◌, ◌*ℤ◌}
use heu.ElGamal.LookupTable.{max_supported_value}
use heu.ElGamal.Scheme as S
use heu.ElGamal.Scheme.{PublicKey, Ciphertext}

-- A computation on ciphertexts; each encryption comes with the number that is drawn for it.
pub data Circuit : Type 0 where
  encrypt : ℤ → ℕ → Circuit
  encrypt_zero : ℕ → Circuit
  randomize : Circuit → ℕ → Circuit
  add sub add_inplace sub_inplace : Circuit → Circuit → Circuit
  add_plain sub_plain mul : Circuit → ℤ → Circuit
  add_plain_inplace sub_plain_inplace mul_inplace : Circuit → ℤ → Circuit
  plain_add plain_sub plain_mul : ℤ → Circuit → Circuit
  negate negate_inplace : Circuit → Circuit

-- The arithmetic that it stands for.
unfoldable pub value : Circuit → ℤ
value (encrypt m r) = m
value (encrypt_zero r) = pos 0
value (randomize a r) = value a
value (add a b) = value a +ℤ value b
value (add_inplace a b) = value a +ℤ value b
value (sub a b) = value a -ℤ value b
value (sub_inplace a b) = value a -ℤ value b
value (add_plain a p) = value a +ℤ p
value (add_plain_inplace a p) = value a +ℤ p
value (plain_add p a) = value a +ℤ p
value (sub_plain a p) = value a -ℤ p
value (sub_plain_inplace a p) = value a -ℤ p
value (plain_sub p a) = p -ℤ value a
value (mul a p) = value a *ℤ p
value (mul_inplace a p) = value a *ℤ p
value (plain_mul p a) = value a *ℤ p
value (negate a) = neg_ℤ (value a)
value (negate_inplace a) = neg_ℤ (value a)

-- Each plaintext that is encrypted is within the bound.
unfoldable pub InBounds : Circuit → Type 0
InBounds (encrypt m r) = pos_part m + neg_part m ≤ max_supported_value
InBounds (encrypt_zero r) = Unit
InBounds (randomize a r) = InBounds a
InBounds (add a b) = InBounds a × InBounds b
InBounds (add_inplace a b) = InBounds a × InBounds b
InBounds (sub a b) = InBounds a × InBounds b
InBounds (sub_inplace a b) = InBounds a × InBounds b
InBounds (add_plain a p) = InBounds a
InBounds (add_plain_inplace a p) = InBounds a
InBounds (plain_add p a) = InBounds a
InBounds (sub_plain a p) = InBounds a
InBounds (sub_plain_inplace a p) = InBounds a
InBounds (plain_sub p a) = InBounds a
InBounds (mul a p) = InBounds a
InBounds (mul_inplace a p) = InBounds a
InBounds (plain_mul p a) = InBounds a
InBounds (negate a) = InBounds a
InBounds (negate_inplace a) = InBounds a

abbrev pub one_operand : {P : Type 0} → (P → P) → Result P → Result P
one_operand f r = r >>= λ x. ok (f x)

abbrev pub two_operands : {P : Type 0} → (P → P → P) → Result P → Result P → Result P
two_operands f r s = r >>= λ x. s >>= λ y. ok (f x y)

-- The code's operations, in the order of the circuit.
unfoldable pub run : {P : Type 0} → PublicKey P → Circuit → Result (Ciphertext P)
run pk (encrypt m r) = S.encrypt pk m r
run pk (encrypt_zero r) = ok (S.encrypt_zero pk r)
run pk (randomize a r) = one_operand (λ x. S.randomize pk x r) (run pk a)
run pk (add a b) = two_operands (S.add pk) (run pk a) (run pk b)
run pk (add_inplace a b) = two_operands (S.add_inplace pk) (run pk a) (run pk b)
run pk (sub a b) = two_operands (S.sub pk) (run pk a) (run pk b)
run pk (sub_inplace a b) = two_operands (S.sub_inplace pk) (run pk a) (run pk b)
run pk (add_plain a p) = one_operand (λ x. S.add_plain pk x p) (run pk a)
run pk (add_plain_inplace a p) = one_operand (λ x. S.add_plain_inplace pk x p) (run pk a)
run pk (plain_add p a) = one_operand (S.plain_add pk p) (run pk a)
run pk (sub_plain a p) = one_operand (λ x. S.sub_plain pk x p) (run pk a)
run pk (sub_plain_inplace a p) = one_operand (λ x. S.sub_plain_inplace pk x p) (run pk a)
run pk (plain_sub p a) = one_operand (S.plain_sub pk p) (run pk a)
run pk (mul a p) = one_operand (λ x. S.mul pk x p) (run pk a)
run pk (mul_inplace a p) = one_operand (λ x. S.mul_inplace pk x p) (run pk a)
run pk (plain_mul p a) = one_operand (S.plain_mul pk p) (run pk a)
run pk (negate a) = one_operand (S.negate pk) (run pk a)
run pk (negate_inplace a) = one_operand (S.negate_inplace pk) (run pk a)
