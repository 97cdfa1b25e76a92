-- ===== src/Dgk/Decryption.antt =====
-- Decryption of what the encryptor and the evaluator of dgk compute: the table holds the logarithm.
use heu.Base.{
  ℕ, zero, suc, ◌+◌, ◌-◌, ◌*◌, ◌/◌, ◌%◌, ◌^◌, ◌<◌, ◌≤◌, ◌≡◌, ◌≢◌, refl, sym, ap, ◌∙◌, true, false,
  ◌∷◌, ==_refl, ok, arith,
}
use native.Mathlib.Nat.{mod-eq_of_lt, mod-mod, pow-suc, pow-zero}
use native.Mathlib.Decide.{ℕ_discrete}
use heu.Base.Int.Residue.{residue, residue-lt}
use heu.Base.Int.{ℤ, pos}
use heu.Base.Modular.{Cong, cong_of_eq, cong_trans, cong_mod, cong_mul, cong_pow, mod_of_cong}
use heu.Paillier.BigInts.{BigInts, IsBigInts, plain}
use heu.Paillier.Residues.{centered}
use heu.Paillier.Scheme.{Ciphertext, same_int}
use heu.Paillier.Scheme.Circuit.{Small}
use heu.Additive.{IsAdditive}
use heu.Additive.Tables.{Tables, IsTables}
use heu.Dgk.Keys.{PublicKey, SecretKey, find_log, fill_logs, init_secret, decrypt_log}
use heu.Dgk.Scheme.{decrypt}
use heu.Dgk.Numbers.{Encodes}
use heu.Dgk.Runs.{IsPublic, Value, pk, validate_lem}
use heu.Ou.Cache.Interleavings.{IsMask}

-- The powers of w below the order are distinct modulo p.
abbrev pub Distinct : ℕ → ℕ → ℕ → Type 0
Distinct p w u = (i j : ℕ) → i < j → j < u → w ^ i % p ≢ w ^ j % p

same_int_self : (x : ℕ) → same_int (pos x) (pos x) ≡ true
same_int_self x = ==_refl (x + 0)

same_int-differ : (x y : ℕ) → x ≢ y → same_int (pos x) (pos y) ≡ false
same_int-differ x y h = ground arith

module _ (b : BigInts) (laws : IsBigInts b) (p w u : ℕ) (big : 1 < p)
    (distinct : Distinct p w u) where
  next_power : (i : ℕ) → b.mul_mod (pos (w ^ i % p)) (pos (w % p)) (pos p) ≡ pos (w ^ suc i % p)
  next_power i =
      laws.mul_mod_is _ _ p (omega arith)
      ∙ ap pos (
          mod_of_cong (omega arith) (
            cong_trans
              (cong_mul (cong_trans (cong_mod p _) (cong_mod p _))
                (cong_trans (cong_mod p _) (cong_mod p w)))
              (cong_of_eq p (sym (pow-suc w i)))))

  power_zero : w ^ 0 % p ≡ 1
  power_zero = ap (λ (t : ℕ). t % p) (pow-zero w) ∙ mod-eq_of_lt big

  -- The entries from i + 1 on hold the logarithm a.
  find-fill_logs :
      (rounds i a : ℕ)
      → i < a
      → a ≤ i + rounds
      → a < u
      → find_log
          (pos (w ^ a % p))
          (fill_logs b rounds (suc i) (pos (w % p)) (pos p) (pos (w ^ i % p)))
        ≡ ok (pos a)
  unfolding find_log fill_logs
  find-fill_logs zero i a low high small = absurd (omega arith)
  find-fill_logs (suc rounds) i a low high small = elim (ℕ_discrete (suc i) a) [
    | yes here ↦ rw (next_power i, ← here, same_int_self (w ^ suc i % p)) refl
    | no later ↦
        let more : suc i + 1 ≡ suc (suc i) = omega arith in
        let other = distinct (suc i) a (omega arith) small in
        rw (next_power i, same_int-differ _ _ other, more)
          (find-fill_logs rounds (suc i) a (omega arith) (omega arith) small)
  ]

  -- The whole table, whose first entry is that of 0.
  pub find_log_lem :
      (a : ℕ)
      → a < u
      → find_log
          (pos (w ^ a % p))
          ((pos 1, pos 0) ∷ fill_logs b (u - 1) 1 (pos (w % p)) (pos p) (pos 1))
        ≡ ok (pos a)
  unfolding find_log
  find_log_lem a small = elim (ℕ_discrete a 0) [
    | yes here ↦ rw (here, power_zero) refl
    | no later ↦
        let other : 1 ≢ w ^ a % p = λ e. distinct 0 a (omega arith) small (power_zero ∙ e) in
        rw (same_int-differ 1 _ other)
          (rw power_zero at (find-fill_logs (u - 1) 0 a (omega arith) (omega arith) small))
  ]

module _ (b : BigInts) (laws : IsBigInts b) (tables : Tables) (table_laws : IsTables b tables)
    (p q v w u g h : ℕ) (some_u : 0 < u) (some_n : 0 < p * q)
    (scheme : IsAdditive u (p * q) (Encodes p q v w)) (key : IsPublic b p q v w u g h)
    (masks : ℕ → ℤ) (good : (i : ℕ) → IsMask b (p * q) h (masks i))
    (zero_masks : Ciphertext → ℤ → ℤ)
    (zero_good : (x : Ciphertext) (k : ℤ) → IsMask b (p * q) h (zero_masks x k)) (vq : ℕ)
    (big : 1 < p) (odd : u / 2 * 2 + 1 ≡ u) (distinct : Distinct p w u) (w_is : w ≡ g ^ v % p) where
  abbrev public : PublicKey
  public =
      pk b laws tables table_laws p q v w u g h some_u some_n scheme key masks good zero_masks
        zero_good

  abbrev secret : SecretKey
  secret = init_secret b (pos p) (pos q) (pos v) (pos vq) (pos u) (pos g)

  decrypt_log_lem :
      (a c : ℕ) → a < u → Cong p (c ^ v) (w ^ a) → decrypt_log b secret (pos c) ≡ ok (pos a)
  unfolding decrypt_log init_secret
  decrypt_log_lem a c small shape =
      let some_p : 0 < p = omega arith in
      let power : (c % p) ^ v % p ≡ w ^ a % p =
        mod_of_cong some_p (cong_trans (cong_pow v (cong_mod p c)) shape) in
      let reduced : g ^ v % p ≡ w % p =
        ap (λ (t : ℕ). t) (sym w_is)
        ∙ (w_is ∙ (sym (mod-mod (g ^ v) p) ∙ ap (λ (t : ℕ). t % p) (sym w_is))) in
      rw
        (
          laws.rem_is (pos c) p some_p,
          laws.pow_mod_is (c % p) v p some_p,
          laws.pow_mod_is g v p some_p,
          power,
          reduced,
        )
        (find_log_lem b laws p w u big distinct a small)

  -- Decryption gives the integer nearest to 0 with the residue that the ciphertext encrypts.
  pub decrypt-Value :
      (ct : Ciphertext) (m : ℤ)
      → Small (u / 2) m
      → Value b laws tables table_laws p q v w u g h some_u some_n scheme key masks good zero_masks
          zero_good m ct.c
      → decrypt b tables public secret ct ≡ ok m
  unfolding decrypt
  decrypt-Value ct m small held =
      let valid =
        validate_lem b laws tables table_laws p q v w u g h some_u some_n scheme key masks good
          zero_masks zero_good ct m held in
      rw
        (
          valid,
          laws.map_back_is (p * q) ct.c held.in_space,
          decrypt_log_lem (residue u m) (plain b (p * q) ct.c) (residue-lt u m some_u)
              held.encodes.shape,
          laws.div_is u 2 (omega arith),
        )
        (ap ok (centered u (u / 2) m odd small))
