-- ===== src/Ishe/Scheme.antt =====
-- algorithms/incubator/ishe: base.h, encryptor.cc, decryptor.cc, evaluator.cc. Big integers are an
-- argument; the random numbers and the random indices into the vectors of ciphertexts are arguments of
-- the functions that draw them. Degrees are natural numbers, since none is negative. An index out of
-- range, which C++ does not define, is an error.
use heu.Base.{
  ℕ, zero, suc, ◌+◌, ◌-◌, ◌*◌, ◌^◌, not, ◌&&◌, List, none, some, get_elem?, ◌==◌, ltb,
  if◌then◌else◌, Result, ok, err, ◌>>=◌, ◌>>◌, enforce,
}
use heu.Base.{out_of_range, illegal_plaintext}
use heu.Base.Int.{ℤ, pos, neg_ℤ, ltb_ℤ, ◌+ℤ◌, ◌-ℤ◌, ◌*ℤ◌}
use heu.Paillier.BigInts.{BigInts}

pub record Ciphertext : Type 0 where
  pub n : ℤ
  pub d : ℕ

pub record SecretKey : Type 0 where
  pub s : ℤ
  pub p : ℤ
  pub capital_l : ℤ

pub record PublicParameters : Type 0 where
  pub k_0 : ℕ
  pub k_r : ℕ
  pub k_m : ℕ
  pub n : ℤ
  pub addones : List ℤ
  pub ones : List ℤ
  pub negs : List ℤ

-- MessageSpace()[1]; MessageSpace()[0] is its opposite.
unfoldable pub message_bound : PublicParameters → ℤ
message_bound pp = pos (2 ^ (pp.k_m - 1))

-- xs[i]
unfoldable pub element : List ℤ → ℕ → Result ℤ
element xs i = elim (get_elem? xs i) [ none ↦ err out_of_range | some x ↦ ok x ]

-- ADDONES[d - 1]
unfoldable pub addone : PublicParameters → ℕ → Result ℤ
addone pp zero = err out_of_range
addone pp (suc i) = element pp.addones i

-- A power of an integer.
unfoldable pub power : ℤ → ℕ → ℤ
power x zero = pos 1
power x (suc k) = power x k *ℤ x

module _ (b : BigInts) (pp : PublicParameters) where
  -- r and r1 are what is drawn.
  unfoldable pub encrypt_impl : SecretKey → ℤ → ℕ → ℤ → ℤ → Result Ciphertext
  unfolding message_bound
  encrypt_impl sk m d r r1 = do
    enforce (ltb_ℤ m (message_bound pp) && not (ltb_ℤ m (neg_ℤ (message_bound pp))))
        illegal_plaintext
    let m1 = b.pow_mod sk.s (pos d) pp.n *ℤ (r *ℤ sk.capital_l +ℤ m)
    ok (record { n = b.mul_mod m1 (pos 1 +ℤ r1 *ℤ sk.p) pp.n; d = d })

  unfoldable pub encrypt : SecretKey → ℤ → ℤ → ℤ → Result Ciphertext
  unfolding encrypt_impl
  encrypt sk m r r1 = encrypt_impl sk m 1 r r1

  unfoldable pub decrypt : SecretKey → Ciphertext → ℤ
  decrypt sk ct =
      let inverse = b.inv_mod (b.pow_mod sk.s (pos ct.d) pp.n) pp.n in
      let tmp = b.rem (b.rem (b.mul_mod ct.n inverse pp.n) sk.p) sk.capital_l in
      if ltb_ℤ tmp (b.div sk.capital_l (pos 2)) then tmp else tmp -ℤ sk.capital_l

  unfoldable pub mul : Ciphertext → Ciphertext → Ciphertext
  mul x y = record { n = b.mul_mod x.n y.n pp.n; d = x.d + y.d }

  unfoldable pub negate : Ciphertext → ℕ → Result Ciphertext
  unfolding element
  negate x draw = do neg ← element pp.negs draw; ok (mul (record { n = neg; d = 0 }) x)

  -- The draw is used where k is negative.
  unfoldable pub mul_plain : Ciphertext → ℤ → ℕ → Result Ciphertext
  unfolding negate
  mul_plain x k draw =
      if not (ltb_ℤ k (pos 0))
      then ok (record { n = b.mul_mod x.n k pp.n; d = x.d })
      else (do z ← negate x draw; ok (record { n = b.mul_mod z.n (neg_ℤ k) pp.n; d = x.d }))

  -- An encryption of 1 with the degree; it is drawn where the degree is 1.
  unfoldable pub one_of : ℕ → ℕ → Result ℤ
  unfolding element addone
  one_of d draw = if d == 1 then element pp.ones draw else addone pp d

  unfoldable pub add_plain : Ciphertext → ℤ → ℕ → ℕ → Result Ciphertext
  unfolding one_of mul_plain
  add_plain x k one_draw neg_draw = do
    one ← one_of x.d one_draw
    m ← mul_plain (record { n = one; d = x.d }) k neg_draw
    ok (record { n = x.n +ℤ m.n; d = x.d })

  -- The sum where the degree of x is greater.
  unfoldable pub add_raised : Ciphertext → Ciphertext → ℕ → ℕ → Result Ciphertext
  unfolding addone add_plain
  add_raised x y one_draw neg_draw = do
    one ← addone pp (x.d - y.d)
    add_plain x (mul y (record { n = one; d = x.d - y.d })).n one_draw neg_draw

  unfoldable pub add : Ciphertext → Ciphertext → ℕ → ℕ → Result Ciphertext
  unfolding add_raised
  add x y one_draw neg_draw =
      if x.d == y.d
      then ok (record { n = x.n +ℤ y.n; d = x.d })
      else if ltb y.d x.d
      then add_raised x y one_draw neg_draw
      else add_raised y x one_draw neg_draw

  unfoldable pub square : Ciphertext → Ciphertext
  square x = record { n = x.n *ℤ x.n; d = x.d * 2 }

  unfoldable pub pow : Ciphertext → ℕ → Ciphertext
  unfolding power
  pow x k = record { n = power x.n k; d = x.d * k }

  unfoldable pub randomize : Ciphertext → ℕ → Result Ciphertext
  unfolding element mul
  randomize x draw = do one ← element pp.ones draw; ok (mul x (record { n = one; d = 1 }))
