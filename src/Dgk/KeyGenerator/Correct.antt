-- ===== src/Dgk/KeyGenerator/Correct.antt =====
-- Keys of dgk as generated, and decryption under them.
use heu.Base.{ℕ, Bool, ◌+◌, ◌*◌, ◌/◌, ◌%◌, ◌^◌, ◌<◌, ◌≤◌, ◌≡◌, refl, ap, ok, arith}
use heu.Base.Int.{ℤ, pos, pos_part}
use heu.Paillier.BigInts.{BigInts, IsBigInts}
use heu.Paillier.Keys.Derived.{pos_mul, pos_add}
use heu.Paillier.Scheme.{Ciphertext}
use heu.Paillier.Scheme.Circuit.{Circuit, value, Small, InBounds}
use heu.Additive.Tables.{Tables, IsTables}
use heu.Additive.Runs.{run}
use heu.Dgk.Scheme.{operations, decrypt}
use heu.Dgk.KeyGenerator.{Draws, find_wp, find_wq, find_gp, find_gq, fill_keys, generate_from}
use heu.Ou.KeyGenerator.Generators.{IsOddPrime}
use heu.Ou.Cache.Interleavings.{IsMask}
use heu.Dgk.KeyGenerator.Filled.{find_gp_lem, not_one, h, fill_lem, decrypt-run}

-- For big integers and tables as documented, odd primes p = u * vp * wp + 1, q = vq * wq + 1 and u, of
-- which q does not divide p nor u divide wq, whatever numbers the loops accept, where p does not
-- divide gp nor q divide gq: the generation from u succeeds with the keys that are filled in, and
-- every computation of the encryptor and the evaluator succeeds whose masks are powers of h and
-- whose checked plaintexts are at most half of u in absolute value. If the arithmetic on the
-- plaintexts stays within that bound, decryption gives its value.
pub decrypt-generate_dgk :
    (b : BigInts) (laws : IsBigInts b) (tables : Tables) (table_laws : IsTables b tables)
    (is_prime : ℤ → Bool) (p q u vp vq wp wq gp gq masked : ℕ) (prime : IsOddPrime p)
    (prime_q : IsOddPrime q) (prime_u : IsOddPrime u) (draws : Draws) (masks : ℕ → ℤ)
    (zero_masks : Ciphertext → ℤ → ℤ) (e : Circuit)
    → u * vp * wp + 1 ≡ p
    → vq * wq + 1 ≡ q
    → 0 < p % q
    → 0 < gp % p
    → 0 < gq % q
    → 0 < wq % u
    → u ≤ 2 ^ b.bit_count (pos u)
    → draws.vp ≡ pos vp
    → draws.vq ≡ pos vq
    → find_wp b is_prime (pos (u * vp)) (pos vq) draws.wps ≡ ok (pos wp)
    → find_wq b is_prime (pos vq) (pos vp) draws.wqs ≡ ok (pos wq)
    → find_gp b (pos p) (pos u) (pos vp) (pos wp) draws.gps ≡ ok (pos gp)
    → find_gq b (pos q) (pos vq) (pos wq) draws.gqs ≡ ok (pos gq)
    → (fill_keys b (pos u) draws (pos wp) (pos wq) (pos p) (pos q) (pos gp) (pos gq)).1.h
      ≡ pos masked
    → ((i : ℕ) → IsMask b (p * q) masked (masks i))
    → ((x : Ciphertext) (k : ℤ) → IsMask b (p * q) masked (zero_masks x k))
    → InBounds (u / 2) e
    → Small (u / 2) (value e)
    → let (sk, pk) =
        fill_keys b (pos u) draws (pos wp) (pos wq) (pos p) (pos q) (pos gp) (pos gq) in
      (generate_from b is_prime (pos u) draws ≡ ok (sk, pk))
      × (ct : Ciphertext) × (run (operations b tables pk masks zero_masks) e ≡ ok ct)
      × (decrypt b tables pk sk ct ≡ ok (value e))
unfolding generate_from
decrypt-generate_dgk b laws tables table_laws is_prime p q u vp vq wp wq gp gq masked prime prime_q
      prime_u draws masks zero_masks e order order_q apart some_gp some_gq some_wq u_bits is_vp
      is_vq found_wp found_wq found_gp found_gq is_h good zero_good bounds small =
    let h0 =
      h b laws p q u vp vq wp wq gp gq prime prime_q prime_u order apart some_gp some_gq some_wq in
    let filled =
      fill_lem b laws p q u vp vq wp wq gp gq prime prime_q prime_u order apart some_gp some_gq
        some_wq draws is_vp is_vq in
    let same : h0 ≡ masked = ap pos_part (rw filled at is_h) in
    let test =
      rw (pos_mul vp wp, laws.pow_mod_is gp (vp * wp) p (omega (arith, prime.big))) at
        (find_gp_lem b (pos p) (pos u) (pos vp) (pos wp) (pos gp) draws.gps found_gp) in
    let (ct, ran, got) =
      decrypt-run b laws p q u vp vq wp wq gp gq prime prime_q prime_u order apart some_gp some_gq
        some_wq (not_one _ test) u_bits tables table_laws masks zero_masks e (rw (same) good)
        (rw (same) zero_good) bounds small in
    (
      rw
          (
            is_vp,
            is_vq,
            pos_mul u vp,
            found_wp,
            found_wq,
            pos_mul (u * vp) wp,
            pos_add (u * vp * wp) 1,
            order,
            pos_mul vq wq,
            pos_add (vq * wq) 1,
            order_q,
            found_gp,
            found_gq,
          )
          refl,
      ct,
      rw filled ran,
      rw filled got,
    )
