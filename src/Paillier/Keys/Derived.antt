-- ===== src/Paillier/Keys/Derived.antt =====
-- What the derived numbers of the keys are, for primes as described.
use heu.Base.{ℕ, suc, ◌+◌, ◌-◌, ◌*◌, ◌/◌, ◌%◌, ◌^◌, ◌<◌, ◌≤◌, ◌≡◌, refl, sym, ap, ◌∙◌, arith}
use native.Mathlib.Nat.{mul-pos, mul-le-mul_left, pow-suc}
use heu.Base.Int.{ℤ, pos, ◌+ℤ◌, ◌-ℤ◌, ◌*ℤ◌, eq_of_parts}
use heu.Base.Int.Ring.{*ℤ_parts}
use heu.Base.Modular.{Cong, cong_of_eq, cong_trans, mod_of_cong, cong_of_mod}
use heu.Paillier.BigInts.{BigInts, IsBigInts}
use heu.Paillier.Keys.{SecretKey, init_public, init_secret, precompute}
use heu.Paillier.Numbers.{IsKeyPair}
use heu.Paillier.Numbers.Decoding.{unit_quotient, unit_quotient_lem, unit_invertible}

pub pos_mul : (x y : ℕ) → pos x *ℤ pos y ≡ pos (x * y)
pos_mul x y = eq_of_parts _ _ (omega (arith, *ℤ_parts (pos x) (pos y)))

pub pos_add : (x y : ℕ) → pos x +ℤ pos y ≡ pos (x + y)
unfolding ◌+ℤ◌
pos_add x y = ground arith

pub pos_sub : (x y : ℕ) → y ≤ x → pos x -ℤ pos y ≡ pos (x - y)
unfolding ◌-ℤ◌
pos_sub x y h = ground arith

-- The numbers of a secret key are those that decryption and the remainder theorem need.
pub record IsSecret (sk : SecretKey) (p q : ℕ) : Type 0 where
  pub p_is : sk.p ≡ pos p
  pub q_is : sk.q ≡ pos q
  pub p_square_is : sk.p_square ≡ pos (p * p)
  pub q_square_is : sk.q_square ≡ pos (q * q)
  pub n_square_is : sk.n_square ≡ pos (p * p * (q * q))
  pub phi_p_is : sk.phi_p ≡ pos (p - 1)
  pub phi_q_is : sk.phi_q ≡ pos (q - 1)
  pub phi_p_square_is : sk.phi_p_square ≡ pos (p * (p - 1))
  pub phi_q_square_is : sk.phi_q_square ≡ pos (q * (q - 1))
  pub p_inverse : ℕ
  pub p_inverse_is : sk.p_inv_mod_q ≡ pos p_inverse
  pub p_inverse_inv : Cong q (p * p_inverse) 1
  pub q_square_inverse : ℕ
  pub q_square_inverse_is : sk.q_square_inv_mul_q_square ≡ pos (q_square_inverse * (q * q))
  pub q_square_inverse_inv : Cong (p * p) (q * q * q_square_inverse) 1
  pub hp : ℕ
  pub hp_is : sk.hp ≡ pos hp
  pub hp_inv : unit_quotient p q * hp % p ≡ 1 % p
  pub hq : ℕ
  pub hq_is : sk.hq ≡ pos hq
  pub hq_inv : unit_quotient q p * hq % q ≡ 1 % q

-- By Euler's theorem the square of q has an inverse modulo the square of p.
square_invertible :
    (p q : ℕ)
    → 1 < p
    → Cong (p * p) (q ^ (p * (p - 1))) 1
    → q * q * q ^ (p * (p - 1) - 2) % (p * p) ≡ 1 % (p * p)
square_invertible p q big euler =
    let k = p * (p - 1) - 2 in
    let less : 1 ≤ p - 1 = omega arith in
    let more = mul-le-mul_left p less in
    let e : p * (p - 1) ≡ suc (suc k) = omega arith in
    let two : q ^ suc (suc k) ≡ q * q * q ^ k =
      pow-suc q (suc k) ∙ (ap (λ (t : ℕ). t * q) (pow-suc q k) ∙ omega arith) in
    mod_of_cong (mul-pos (omega arith) (omega arith))
      (cong_trans (cong_of_eq (p * p) (sym two ∙ ap (λ (t : ℕ). q ^ t) (sym e))) euler)

module _ (b : BigInts) (laws : IsBigInts b) where
  pub public_is :
      (n h_s : ℕ)
      → init_public b (pos n) (pos h_s) ≡ record {
        n = pos n;
        n_square = pos (n * n);
        n_half = pos (n / 2);
        h_s = pos h_s;
        key_size = b.bit_count (pos n);
      }
  unfolding init_public
  public_is n h_s = rw (pos_mul n n, laws.shift_right_is n 1)

  precompute_lem :
      (p q i n : ℕ)
      → n ≡ p * q
      → 1 < p
      → Cong p (q * i) 1
      → (h : ℕ) × (precompute b (pos (n + 1)) (pos p) (pos (p - 1)) (pos (p * p)) ≡ pos h)
        × (unit_quotient p q * h % p ≡ 1 % p)
  unfolding precompute
  precompute_lem p q i n same big inv =
      let g : n + 1 ≡ 1 + p * q = omega arith in
      let positive : 0 < p * p = mul-pos (omega arith) (omega arith) in
      let (h, is_h, small, inv_h) =
        laws.inv_mod_is (unit_quotient p q) p (i * (p - 1)) (omega arith)
          (unit_invertible p q i big inv) in
      (
        h,
        rw
            (
              g,
              precompute,
              laws.pow_mod_is (1 + p * q) (p - 1) (p * p) positive,
              pos_sub _ 1 (unit_quotient_lem p q big).0,
              laws.div_is ((1 + p * q) ^ (p - 1) % (p * p) - 1) p (omega arith),
            )
            is_h,
        inv_h,
      )

  -- `Init` of a secret key fills in these numbers.
  pub init-IsSecret :
      (p q : ℕ) (lambda mu : ℤ)
      → IsKeyPair p q
      → IsSecret (init_secret b lambda mu (pos p) (pos q)) p q
  unfolding init_secret
  init-IsSecret p q lambda mu key =
      let pp = pos_mul p p in
      let qq = pos_mul q q in
      let less_p = pos_sub p 1 (omega (arith, key.p_big)) in
      let less_q = pos_sub q 1 (omega (arith, key.q_big)) in
      let n_is : pos p *ℤ pos q +ℤ pos 1 ≡ pos (p * q + 1) = rw (pos_mul p q, pos_add (p * q) 1) in
      let (hp, hp_is, hp_inv) =
        precompute_lem p q key.q_inverse (p * q) refl key.p_big key.q_inverse_is in
      let (hq, hq_is, hq_inv) =
        precompute_lem q p key.p_inverse (p * q) (omega arith) key.q_big key.p_inverse_is in
      let (k, k_is, k_small, k_inv) =
        laws.inv_mod_is p q key.p_inverse (omega (arith, key.q_big))
          (mod_of_cong (omega (arith, key.q_big)) key.p_inverse_is) in
      let (j, j_is, j_small, j_inv) =
        laws.inv_mod_is (q * q) (p * p) _
          (mul-pos (omega (arith, key.p_big)) (omega (arith, key.p_big)))
          (square_invertible p q key.p_big (key.euler_p q key.q_inverse key.q_inverse_is)) in
      record {
        p_is = refl;
        q_is = refl;
        p_square_is = pp;
        q_square_is = qq;
        n_square_is = rw (pp, qq) (pos_mul (p * p) (q * q));
        phi_p_is = less_p;
        phi_q_is = less_q;
        phi_p_square_is = rw less_p (pos_mul p (p - 1));
        phi_q_square_is = rw less_q (pos_mul q (q - 1));
        p_inverse = k;
        p_inverse_is = k_is;
        p_inverse_inv = cong_of_mod q _ _ k_inv;
        q_square_inverse = j;
        q_square_inverse_is = rw (pp, qq, j_is) (pos_mul j (q * q));
        q_square_inverse_inv = cong_of_mod (p * p) _ _ j_inv;
        hp = hp;
        hp_is = rw (n_is, less_p, pp) hp_is;
        hp_inv = hp_inv;
        hq = hq;
        hq_is = rw (n_is, less_q, qq) hq_is;
        hq_inv = hq_inv;
      }
