-- ===== src/Ishe/Correct.antt =====
-- Keys of ishe as created, and decryption of what is computed under them.
use heu.Base.{
  ℕ, zero, suc, ◌+◌, ◌-◌, ◌*◌, ◌/◌, ◌^◌, ◌<◌, ◌≤◌, ◌≡◌, refl, subst, true, ◌&&◌, List, [], ◌∷◌, ltb,
  Result, ok, arith,
}
use heu.Base.Int.{ℤ, pos, negsuc, pos_part, neg_part}
use heu.Base.Modular.{Cong}
use heu.Paillier.BigInts.{BigInts, IsBigInts}
use heu.Paillier.Keys.Derived.{pos_mul}
use heu.Ishe.Scheme as S
use heu.Ishe.Scheme.{Ciphertext, SecretKey, PublicParameters, element, decrypt}
use heu.Ishe.Circuit.{Circuit, Sizes, value, degree, noise, InBounds, run}
use heu.Ishe.Numbers.{Encodes}
use heu.Ishe.Runs.{
  Vector, Holds, pp, mul-Holds, add-Holds, negate-Holds, randomize-Holds, add_plain-Holds,
  mul_plain-Holds, square-Holds, pow-Holds,
}
use heu.Ishe.Decryption.{sk, encrypt_impl-Fresh, decrypt-Holds}
use heu.Ishe.Kit.{Draws, fill_vector, create_params}

-- The draws of an encryption: r is below the bound and not 0.
abbrev pub IsDrawn : ℕ → ℤ × ℤ → Type 0
IsDrawn bound x = (r : ℕ) × (t : ℕ) × (x ≡ (pos r, pos t)) × (0 < r) × (r < bound)

cons-Vector :
    (p s l f : ℕ) (m : ℤ) (degree_of : ℕ → ℕ) (start c : ℕ) (xs : List ℤ) (size : ℕ)
    → Encodes p s l m (degree_of start) f c
    → Vector p s l f m degree_of (start + 1) xs size
    → Vector p s l f m degree_of start (pos c ∷ xs) (suc size)
unfolding element
cons-Vector p s l f m degree_of start c xs size first are zero inside =
    let same : start ≡ start + 0 = omega arith in
    (c, refl, subst (λ (t : ℕ). Encodes p s l m (degree_of t) f c) same first)
cons-Vector p s l f m degree_of start c xs size first are (suc i) inside =
    let (e, is_e, encodes) = are i (omega arith) in
    let same : start + 1 + i ≡ start + suc i = omega arith in
    (e, is_e, subst (λ (t : ℕ). Encodes p s l m (degree_of t) f e) same encodes)

module _ (b : BigInts) (laws : IsBigInts b) (p q s l bound : ℕ) (some_n : 0 < p * q)
    (some_l : 0 < l) (k_0 k_r k_m : ℕ) (half : 2 ^ (k_m - 1) ≤ l) where
  abbrev with_vectors : List ℤ → List ℤ → List ℤ → PublicParameters
  with_vectors addones ones negs =
      pp b laws p q s l (bound * l) some_n some_l k_0 k_r k_m addones ones negs

  abbrev key : SecretKey
  key = sk b laws p q s l bound some_n some_l k_0 k_r k_m [] [] []

  abbrev sizes : Sizes
  sizes = record { addones = 100; ones = 50; negs = 20 }

  -- A loop of InitOnes succeeds with encryptions of m.
  fill_vector-Vector :
      (m : ℤ) (degree_of : ℕ → ℕ) (draws : ℕ → ℤ × ℤ)
      → pos_part m < 2 ^ (k_m - 1)
      → neg_part m ≤ 2 ^ (k_m - 1)
      → ((i : ℕ) → IsDrawn bound (draws i))
      → (i rounds : ℕ)
      → (xs : List ℤ) × (fill_vector b (with_vectors [] [] []) key m degree_of draws i rounds
          ≡ ok xs)
        × Vector p s l (bound * l) m degree_of i xs rounds
  unfolding fill_vector element
  fill_vector-Vector m degree_of draws high low drawn i zero =
      ([], refl, λ j inside. absurd (omega arith))
  fill_vector-Vector m degree_of draws high low drawn i (suc rounds) =
      let (r, t, is_drawn, some_r, few) = drawn i in
      let (ct, ran, (c, is_c, encodes)) =
        encrypt_impl-Fresh b laws p q s l bound some_n some_l k_0 k_r k_m [] [] [] m (degree_of i) r
          t half high low some_r few in
      let (rest, rest_ran, are) =
        fill_vector-Vector m degree_of draws high low drawn (i + 1) rounds in
      (
        pos c ∷ rest,
        rw (is_drawn, ran, is_c, rest_ran) refl,
        cons-Vector p s l (bound * l) m degree_of i c rest rounds encodes are,
      )

  module _ (addones ones negs : List ℤ)
      (addones_are : Vector p s l (bound * l) (pos 1) (λ i. i) 1 addones 100)
      (ones_are : Vector p s l (bound * l) (pos 1) (λ i. 1) 1 ones 50)
      (negs_are : Vector p s l (bound * l) (negsuc 0) (λ i. 0) 1 negs 20) where
    abbrev public : PublicParameters
    public = with_vectors addones ones negs

    abbrev Yields : Circuit → Result Ciphertext → Type 0
    Yields e r =
        (ct : Ciphertext) × (r ≡ ok ct)
        × Holds b laws p q s l (bound * l) some_n some_l k_0 k_r k_m addones ones negs (value e)
            (degree e) (noise (bound * l) e) ct

    run-Yields :
        (e : Circuit) → InBounds (2 ^ (k_m - 1)) bound sizes e → Yields e (run b public key e)
    unfolding run value degree noise InBounds S.encrypt
    run-Yields (Circuit.encrypt m r r1) (high, low, some_r, few, t, is_t) = rw is_t (
        encrypt_impl-Fresh b laws p q s l bound some_n some_l k_0 k_r k_m addones ones negs m 1 r t
          half high low some_r few)
    run-Yields (Circuit.add x y) (hx, hy, same) =
        let (c, ran, held) = run-Yields x hx in
        let (d, ran', held') = run-Yields y hy in
        let (ct, sum, holds) =
          add-Holds b laws p q s l (bound * l) some_n some_l k_0 k_r k_m addones ones negs c d
            (value x) (value y) (degree x) _ _ held (rw (← same) at held') in
        (ct, rw (ran, ran') sum, holds)
    run-Yields (Circuit.mul x y) (hx, hy) =
        let (c, ran, held) = run-Yields x hx in
        let (d, ran', held') = run-Yields y hy in
        (
          _,
          rw (ran, ran') refl,
          mul-Holds b laws p q s l (bound * l) some_n some_l k_0 k_r k_m addones ones negs c d
              (value x) (value y) (degree x) (degree y) _ _ held held',
        )
    run-Yields (Circuit.negate x i) (hx, inside) =
        let (c, ran, held) = run-Yields x hx in
        let (ct, next, holds) =
          negate-Holds b laws p q s l (bound * l) some_n some_l k_0 k_r k_m addones ones negs sizes
            addones_are ones_are negs_are c (value x) (degree x) _ i inside held in
        (ct, rw ran next, holds)
    run-Yields (Circuit.randomize x i) (hx, inside) =
        let (c, ran, held) = run-Yields x hx in
        let (ct, next, holds) =
          randomize-Holds b laws p q s l (bound * l) some_n some_l k_0 k_r k_m addones ones negs
            sizes addones_are ones_are negs_are c (value x) (degree x) _ i inside held in
        (ct, rw ran next, holds)
    run-Yields (Circuit.add_plain x k i j) (hx, some_d, reach, in_ones, in_negs) =
        let (c, ran, held) = run-Yields x hx in
        let (ct, next, holds) =
          add_plain-Holds b laws p q s l (bound * l) some_n some_l k_0 k_r k_m addones ones negs
            sizes addones_are ones_are negs_are c (value x) k (degree x) _ i j some_d reach in_ones
            in_negs held in
        (ct, rw ran next, holds)
    run-Yields (Circuit.mul_plain x k j) (hx, inside) =
        let (c, ran, held) = run-Yields x hx in
        let (ct, next, holds) =
          mul_plain-Holds b laws p q s l (bound * l) some_n some_l k_0 k_r k_m addones ones negs
            sizes addones_are ones_are negs_are c (value x) k (degree x) _ j inside held in
        (ct, rw ran next, holds)
    run-Yields (Circuit.square x) hx =
        let (c, ran, held) = run-Yields x hx in
        (
          _,
          rw ran refl,
          square-Holds b laws p q s l (bound * l) some_n some_l k_0 k_r k_m addones ones negs c
              (value x) (degree x) _ held,
        )
    run-Yields (Circuit.pow x k) hx =
        let (c, ran, held) = run-Yields x hx in
        (
          _,
          rw ran refl,
          pow-Holds b laws p q s l (bound * l) some_n some_l k_0 k_r k_m addones ones negs c
              (value x) (degree x) _ k held,
        )

-- For big integers as documented, where s has an inverse modulo p * q, L is not less than the bound of
-- the message space, which holds 1, and each r that is drawn is from 1 to below the bound: the kit is
-- created whenever its parameters pass the check, and every computation of its encryptor and
-- evaluator succeeds whose plaintexts are in the message space, whose indices are in range and
-- that adds ciphertexts of the same degree. If the bound on its noise is below p and the arithmetic on
-- the plaintexts stays between -L / 2 and L / 2, decryption gives its value.
pub decrypt-create_params :
    (b : BigInts) (laws : IsBigInts b) (p q s t l bound k_0 k_r k_m : ℕ) (draws : Draws)
    (e : Circuit)
    → 0 < p * q
    → 0 < l
    → Cong (p * q) (s * t) 1
    → 2 ^ (k_m - 1) ≤ l
    → 1 < 2 ^ (k_m - 1)
    → (ltb k_r k_0 && ltb k_m k_r && ltb 0 k_m) ≡ true
    → draws.p ≡ pos p
    → draws.q ≡ pos q
    → draws.s ≡ pos s
    → draws.capital_l ≡ pos l
    → ((i : ℕ) → IsDrawn bound (draws.for_addones i))
    → ((i : ℕ) → IsDrawn bound (draws.for_ones i))
    → ((i : ℕ) → IsDrawn bound (draws.for_negs i))
    → InBounds (2 ^ (k_m - 1)) bound (record { addones = 100; ones = 50; negs = 20 }) e
    → noise (bound * l) e < p
    → pos_part (value e) < l / 2
    → neg_part (value e) ≤ l / 2
    → (key : SecretKey) × (params : PublicParameters) × (create_params b k_0 k_r k_m draws
        ≡ ok (key, params))
      × (ct : Ciphertext) × (run b params key e ≡ ok ct)
      × (decrypt b params key ct ≡ value e)
unfolding create_params
decrypt-create_params b laws p q s t l bound k_0 k_r k_m draws e some_n some_l unit half room
      allowed is_p is_q is_s is_l for_addones for_ones for_negs inside fits high low =
    let (addones, addones_ran, addones_are) =
      fill_vector-Vector b laws p q s l bound some_n some_l k_0 k_r k_m half (pos 1) (λ i. i)
        draws.for_addones room (omega arith) for_addones 1 100 in
    let (ones, ones_ran, ones_are) =
      fill_vector-Vector b laws p q s l bound some_n some_l k_0 k_r k_m half (pos 1) (λ i. 1)
        draws.for_ones room (omega arith) for_ones 1 50 in
    let (negs, negs_ran, negs_are) =
      fill_vector-Vector b laws p q s l bound some_n some_l k_0 k_r k_m half (negsuc 0) (λ i. 0)
        draws.for_negs (omega arith) (omega arith) for_negs 1 20 in
    let (ct, ran, held) =
      run-Yields b laws p q s l bound some_n some_l k_0 k_r k_m half addones ones negs addones_are
        ones_are negs_are e inside in
    (
      _,
      _,
      rw (allowed, is_p, is_q, is_s, is_l, pos_mul p q, addones_ran, ones_ran, negs_ran) refl,
      ct,
      ran,
      decrypt-Holds b laws p q s l bound some_n some_l k_0 k_r k_m addones ones negs t ct (value e)
          (degree e) (noise (bound * l) e) unit fits high low held,
    )
