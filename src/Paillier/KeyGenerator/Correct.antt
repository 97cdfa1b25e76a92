-- ===== src/Paillier/KeyGenerator/Correct.antt =====
-- Keys as generated, and decryption under them.
use heu.Base.{
  ℕ, ◌*◌, ◌/◌, ◌%◌, ◌^◌, ◌<◌, ◌≡◌, refl, ap, true, List, [], ◌∷◌, ◌==◌, ==_iff, ok, ok-injective,
  Bool-cases, inl, inr, arith,
}
use heu.Base.Int.Residue.{residue}
use heu.Base.Int.{ℤ, pos, neg_ℤ, ◌-ℤ◌, ◌*ℤ◌, eq_of_parts}
use heu.Base.Modular.{cong_of_mod}
use native.Mathlib.Nat.{mul-pos, mul-lt-mul_of_pos_right}
use heu.Paillier.BigInts.{BigInts, IsBigInts}
use heu.Paillier.Keys.{PublicKey, SecretKey, init_secret}
use heu.Paillier.Keys.Derived.{init-IsSecret, public_is, pos_mul}
use heu.Paillier.Keys.Crt.{pow_mod_n_square_crt_lem}
use heu.Paillier.Numbers.{IsKeyPair, IsNoise}
use heu.Paillier.Scheme.{Ciphertext, decrypt, create_decryptor, same_int}
use heu.Paillier.Scheme.Circuit.{Circuit, value, Small, InBounds, run}
use heu.Paillier.Scheme.Runs.{run-Yields}
use heu.Paillier.Decryption.{decrypt-Value, create_decryptor_lem}
use heu.Paillier.KeyGenerator.{find_pq, find_x, fill_keys, generate}
use heu.Paillier.KeyGenerator.Invertible.{opposite_square, power-IsNoise}

-- The loop for x ends with a number whose greatest common divisor with n is 1.
find_x_lem : (b : BigInts) (n x : ℤ) (draws : List ℤ) → find_x b n draws ≡ ok x → b.gcd x n ≡ pos 1
unfolding find_x
find_x_lem b n x [] h = cc
find_x_lem b n x (y ∷ draws) h = elim (Bool-cases (same_int (b.gcd y n) (pos 1))) [
  | inl t ↦
      let e : y ≡ x = ok-injective y x (rw t at h) in rw (← e) (eq_of_parts _ _ ((==_iff _ _).0 t))
  | inr t ↦ find_x_lem b n x draws (rw t at h)
]

product_big : (p q : ℕ) → 1 < p → 1 < q → 1 < p * q
product_big p q h k =
    let positive : 0 < q = omega arith in omega (arith, mul-lt-mul_of_pos_right h positive)

-- The keys that are filled in, for a base as the loop accepts it.
fill_lem :
    (b : BigInts) (laws : IsBigInts b) (p q x : ℕ)
    → IsKeyPair p q
    → b.gcd (pos x) (pos (p * q)) ≡ pos 1
    → (lambda : ℤ) × (mu : ℤ) × (hs : ℕ) × IsNoise p q hs
      × (fill_keys b (pos p) (pos q) (pos x) ≡ (
        init_secret b lambda mu (pos p) (pos q),
        record {
          n = pos (p * q);
          n_square = pos (p * q * (p * q));
          n_half = pos (p * q / 2);
          h_s = pos hs;
          key_size = b.bit_count (pos (p * q));
        },
      ))
unfolding fill_keys
fill_lem b laws p q x key coprime =
    let n_big = product_big p q key.p_big key.q_big in
    let big : 0 < p * q = omega arith in
    let bigger : 0 < p * q * (p * q) = mul-pos big big in
    let lambda = b.div ((pos p -ℤ pos 1) *ℤ (pos q -ℤ pos 1)) (pos 2) in
    let mu = b.inv_mod lambda (pos (p * q)) in
    let (v, unit) = laws.gcd_is x (p * q) big coprime in
    let y = neg_ℤ (pos (x % (p * q) * (x % (p * q)) % (p * q))) in
    let (u, inv) = opposite_square (p * q) x v y n_big refl (cong_of_mod (p * q) _ _ unit) in
    let r = residue (p * q * (p * q)) y in
    (
      lambda,
      mu,
      r ^ (p * q) % (p * q * (p * q)),
      power-IsNoise p q key r u inv,
      rw
          (
            pos_mul p q,
            laws.mul_mod_is (pos x) (pos x) (p * q) big,
            pow_mod_n_square_crt_lem b laws p q key lambda mu y (p * q) u inv,
          )
          (ap (λ (k : PublicKey). (init_secret b lambda mu (pos p) (pos q), k))
            (public_is b laws (p * q) _)),
    )

-- For big integers as documented and primes as described, whatever numbers the loops accept: key
-- generation succeeds for an even key size, the decryptor accepts the keys, every computation of the encryptor and the evaluator
-- whose checked plaintexts are at most half the modulus in absolute value succeeds, and if the
-- arithmetic on the plaintexts stays within that bound, decryption gives its value.
pub decrypt-generate_keys :
    (b : BigInts) (laws : IsBigInts b) (p q x key_size : ℕ) (key : IsKeyPair p q)
    (prime_draws : List (ℤ × List ℤ)) (x_draws : List ℤ) (e : Circuit)
    → (key_size % 2 == 0) ≡ true
    → find_pq b key_size prime_draws ≡ ok (pos p, pos q)
    → find_x b (pos p *ℤ pos q) x_draws ≡ ok (pos x)
    → InBounds (p * q / 2) e
    → Small (p * q / 2) (value e)
    → (sk : SecretKey) × (pk : PublicKey) × (generate b key_size prime_draws x_draws ≡ ok (sk, pk))
      × (create_decryptor pk sk ≡ ok (pk, sk))
      × (ct : Ciphertext) × (run b pk e ≡ ok ct)
      × (decrypt b pk sk ct ≡ ok (value e))
unfolding generate
decrypt-generate_keys b laws p q x key_size key prime_draws x_draws e even primes found bounds
      small =
    let n_big = product_big p q key.p_big key.q_big in
    let big : 0 < p * q = omega arith in
    let bigger : 0 < p * q * (p * q) = mul-pos big big in
    let coprime = rw (pos_mul p q) at (find_x_lem b (pos p *ℤ pos q) (pos x) x_draws found) in
    let (lambda, mu, hs, noise, filled) = fill_lem b laws p q x key coprime in
    let sk = init_secret b lambda mu (pos p) (pos q) in
    let secret = init-IsSecret b laws p q lambda mu key in
    let (ct, ran, holds) =
      run-Yields b laws p q big bigger hs (b.bit_count (pos (p * q))) noise e bounds in
    (
      sk,
      _,
      rw (even, primes, found) (ap ok filled),
      create_decryptor_lem b laws p q key big bigger hs (b.bit_count (pos (p * q))) noise sk secret,
      ct,
      ran,
      decrypt-Value b laws p q key big bigger hs (b.bit_count (pos (p * q))) noise sk ct (value e)
          secret small holds,
    )
