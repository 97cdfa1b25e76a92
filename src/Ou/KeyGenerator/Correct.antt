-- ===== src/Ou/KeyGenerator/Correct.antt =====
-- Keys of ou as generated, and decryption under them.
use heu.Base.{
  ℕ, Bool, ◌+◌, ◌-◌, ◌*◌, ◌/◌, ◌%◌, ◌^◌, ◌<◌, ◌≤◌, ◌≡◌, ◌≢◌, refl, ap, ◌∙◌, true, leb, ok, arith,
}
use native.Mathlib.Nat.{mul-pos, mod-eq_of_lt}
use native.Mathlib.Decide.{ℕ_discrete}
use heu.Base.Int.{ℤ, pos, negsuc}
use heu.Base.Int.Residue.{residue}
use heu.Base.Modular.{
  Cong, cong, cong_sym, cong_mod, cong_pow, cong_weaken, cong_of_mod, mod_of_cong, power_unit,
}
use heu.Paillier.BigInts.{BigInts, IsBigInts}
use heu.Paillier.Keys.Derived.{pos_mul, pos_add, pos_sub}
use heu.Paillier.Scheme.{Ciphertext}
use heu.Paillier.Scheme.Circuit.{Circuit, value, Small, InBounds}
use heu.Additive.Tables.{Tables, IsTables}
use heu.Additive.Runs.{run, run-Yields}
use heu.Ou.Keys.{PublicKey, SecretKey, init_public, message_bits, one_less}
use heu.Ou.Scheme.{operations, decrypt, create_decryptor}
use heu.Ou.Numbers.{Encodes, Encodes-IsAdditive}
use heu.Ou.Cache.Interleavings.{IsMask}
use heu.Ou.Runs.{IsPublic, operations-IsHomomorphic}
use heu.Ou.Decryption.{secret_of, decrypt-Value, create_decryptor_lem}
use heu.Ou.KeyGenerator.{
  Draws, prime_factor_size, find_p, find_g, find_other, fill_secret, fill_public, generate,
}
use heu.Ou.KeyGenerator.Generators.{
  IsOddPrime, fermat_quotient, power_shape, quotient-lt, generator-Encodes, other-Encodes,
}

module _ (b : BigInts) (laws : IsBigInts b) (p q t u g vg : ℕ) (prime : IsOddPrime p)
    (order : t * u + 1 ≡ p) (some_q : 0 < q) (g_unit : Cong (p * p * q) (g * vg) 1) where
  some_p : 0 < p
  some_p = omega (arith, prime.big)

  n_positive : 0 < p * p * q
  n_positive = mul-pos (mul-pos some_p some_p) some_q

  p_unit : Cong p (g * vg) 1
  p_unit = cong_weaken p (cong_weaken q g_unit)

  abbrev k : ℕ
  k = fermat_quotient p prime g

  -- The secret key, where the power of g is not 1.
  fill_secret_lem :
      g ^ (p - 1) % (p * p) ≢ 1
      → (i : ℕ) × Cong p (k * i) 1
        × (fill_secret b (pos t) (pos p) (pos q) (pos g) ≡ secret_of p q t i)
  unfolding fill_secret
  fill_secret_lem distinct =
      let square : 0 < p * p = mul-pos some_p some_p in
      let shape = power_shape p prime g vg p_unit in
      let small : k % p ≡ k = mod-eq_of_lt (quotient-lt p prime g vg p_unit) in
      let some_k : 0 < k % p = elim (ℕ_discrete k 0) [
        | yes none_k ↦ absurd (distinct (shape ∙ omega (arith, ap (λ (x : ℕ). p * x) none_k)))
        | no more ↦ omega (arith, small)
      ] in
      let (v, unit) = prime.inverse k some_k in
      let (i, is_i, below, inv) = laws.inv_mod_is k p v some_p (mod_of_cong some_p unit) in
      let y = g ^ (p - 1) % (p * p) in
      let power : (g % (p * p)) ^ (p - 1) % (p * p) ≡ y =
        mod_of_cong square (cong_pow (p - 1) (cong_mod (p * p) g)) in
      let some_y : 1 ≤ y = omega (arith, shape) in
      (
        i,
        cong_of_mod p _ _ inv,
        rw
            (
              pos_mul p p,
              pos_mul (p * p) q,
              laws.rem_is (pos g) (p * p) square,
              pos_sub p 1 some_p,
              laws.pow_mod_is (g % (p * p)) (p - 1) (p * p) square,
              power,
              pos_sub y 1 some_y,
              laws.div_is (y - 1) p some_p,
              is_i,
              laws.shift_right_is p 1,
            )
            refl,
      )

  module _ (other vo : ℕ) (other_unit : Cong (p * p * q) (other * vo) 1) where
    abbrev n : ℕ
    n = p * p * q

    abbrev pub capital_g : ℕ
    capital_g = g ^ u % n

    abbrev pub capital_h : ℕ
    capital_h = other ^ (n * u) % n

    g_Encodes : Encodes p q t k (residue p (pos 1)) capital_g
    g_Encodes =
        (Encodes-IsAdditive p q t k).resp 1 (1 % p) capital_g (cong_sym (cong_mod p 1))
          (generator-Encodes p prime g vg p_unit q t u (vg ^ u) order (power_unit n g vg u g_unit))

    h_Encodes : Encodes p q t k (residue p (pos 0)) capital_h
    h_Encodes = (Encodes-IsAdditive p q t k).resp 0 (0 % p) capital_h (cong_sym (cong_mod p 0)) (
        other-Encodes p prime other vo (cong_weaken p (cong_weaken q other_unit)) q t u k
          (vo ^ (n * u)) order (power_unit n other vo (n * u) other_unit))

    -- G^-1, as Init computes it, encrypts -1.
    inverse_Encodes :
        (i : ℕ) × (b.inv_mod (pos capital_g) (pos n) ≡ pos i)
        × Encodes p q t k (residue p (negsuc 0)) i
    inverse_Encodes =
        let (i, is_i, below, inv) =
          laws.inv_mod_is capital_g n (vg ^ u) n_positive
            (mod_of_cong n_positive (power_unit n g vg u g_unit)) in
        let opposite : Cong p (residue p (pos 1) + residue p (negsuc 0)) 0 =
          cong 0 1 (omega (arith, mod-eq_of_lt prime.big, mod-eq_of_lt some_p)) in
        (
          i,
          is_i,
          (Encodes-IsAdditive p q t k).inverse (residue p (pos 1)) (residue p (negsuc 0)) capital_g
              i opposite (cong_of_mod n _ _ inv) g_Encodes,
        )

    -- The public key that is filled in.
    fill_public_lem :
        (i bound : ℕ)
        → bound ≡ 2 ^ one_less (b.bit_count (pos (p / 2)))
        → (g_inv : ℕ) × Encodes p q t k (residue p (negsuc 0)) g_inv
          × (fill_public b (secret_of p q t i) (pos u) (pos g) (pos other) ≡ record {
            n = pos n;
            capital_g = pos capital_g;
            capital_h = pos capital_h;
            capital_g_inv = pos g_inv;
            max_plaintext = pos bound;
          })
    unfolding fill_public init_public
    fill_public_lem i bound is =
        let (g_inv, is_inv, encodes) = inverse_Encodes in
        (
          g_inv,
          encodes,
          rw
              (
                is,
                pos_mul n u,
                laws.pow_mod_is g u n n_positive,
                laws.pow_mod_is other (n * u) n n_positive,
                is_inv,
              )
              refl,
        )

-- For big integers and tables as documented, an odd prime p = tu + 1 and a number q, whatever
-- numbers the loops accept, where g and g' have inverses modulo n and the power of g is not 1
-- modulo p^2: key generation succeeds for a size that it allows, the decryptor accepts the keys, and
-- every computation of the encryptor and the evaluator succeeds whose masks are powers of H and
-- whose checked plaintexts are at most the bound and below the reach of the tables. If the
-- arithmetic on the plaintexts stays within half of p, decryption gives its value.
pub decrypt-generate_ou :
    (b : BigInts) (laws : IsBigInts b) (tables : Tables) (table_laws : IsTables b tables)
    (is_prime : ℤ → Bool) (p q t u g vg other vo limit key_size : ℕ) (prime : IsOddPrime p)
    (draws : Draws) (masks : ℕ → ℤ) (e : Circuit)
    → t * u + 1 ≡ p
    → 0 < q
    → Cong (p * p * q) (g * vg) 1
    → Cong (p * p * q) (other * vo) 1
    → g ^ (p - 1) % (p * p) ≢ 1
    → leb (prime_factor_size key_size * 2) ((key_size + 2) / 3) ≡ true
    → find_p is_prime draws.factors ≡ ok (pos t, pos u)
    → draws.q ≡ pos q
    → find_g b (pos p) (pos (p * p)) draws.generators ≡ ok (pos g)
    → find_other b (pos p) draws.others ≡ ok (pos other)
    → ((i : ℕ) → IsMask b (p * p * q) (other ^ (p * p * q * u) % (p * p * q)) (masks i))
    → limit ≤ 2 ^ one_less (b.bit_count (pos (p / 2)))
    → limit < 2 ^ message_bits b (pos (2 ^ one_less (b.bit_count (pos (p / 2)))))
    → InBounds limit e
    → Small (p / 2) (value e)
    → (sk : SecretKey) × (pk : PublicKey) × (generate b is_prime key_size draws ≡ ok (sk, pk))
      × (create_decryptor pk sk ≡ ok (pk, sk))
      × (ct : Ciphertext) × (run (operations b tables pk masks) e ≡ ok ct)
      × (decrypt b tables pk sk ct ≡ ok (value e))
unfolding generate
decrypt-generate_ou b laws tables table_laws is_prime p q t u g vg other vo limit key_size prime
      draws masks e order some_q g_unit other_unit distinct allowed found_p is_q found_g found_other
      good within_bound within_bits bounds small =
    let pos_p : 0 < p = some_p b laws p q t u g vg prime order some_q g_unit in
    let pos_n = n_positive b laws p q t u g vg prime order some_q g_unit in
    let k = fermat_quotient p prime g in
    let h = other ^ (p * p * q * u) % (p * p * q) in
    let bound = 2 ^ one_less (b.bit_count (pos (p / 2))) in
    let (i, unit, secret) =
      fill_secret_lem b laws p q t u g vg prime order some_q g_unit distinct in
    let (g_inv, g_inv_encodes, public) =
      fill_public_lem b laws p q t u g vg prime order some_q g_unit other vo other_unit i bound
        refl in
    let key : IsPublic b p q t k limit (g ^ u % (p * p * q)) g_inv h bound = record {
      g_encodes = g_Encodes b laws p q t u g vg prime order some_q g_unit other vo other_unit;
      g_inv_encodes = g_inv_encodes;
      h_encodes = h_Encodes b laws p q t u g vg prime order some_q g_unit other vo other_unit;
      limit-le = within_bound;
      limit-lt = within_bits;
    } in
    let (ct, ran, held) =
      run-Yields _ limit _
        (operations-IsHomomorphic b laws tables table_laws p q t k limit (g ^ u % (p * p * q)) g_inv
          h bound pos_p pos_n key masks good)
        e bounds in
    (
      secret_of p q t i,
      _,
      rw
          (
            allowed,
            found_p,
            pos_mul t u,
            pos_add (t * u) 1,
            order,
            pos_mul p p,
            found_g,
            found_other,
            is_q,
            secret,
          )
          (ap (λ (pk : PublicKey). ok (secret_of p q t i, pk)) public),
      create_decryptor_lem b laws tables table_laws p q t k limit (g ^ u % (p * p * q)) g_inv h
          bound pos_p pos_n key masks good prime.big prime.odd i unit,
      ct,
      ran,
      decrypt-Value b laws tables table_laws p q t k limit (g ^ u % (p * p * q)) g_inv h bound pos_p
          pos_n key masks good prime.big prime.odd i unit ct (value e) small held,
    )
