-- ===== src/ElGamal/KeyGenerator.antt =====
-- elgamal/key_generator.cc. The numbers that `RandomLtN` draws are a list, and `SetBit(i, 0)` of the
-- big integers, with the test of a bit that describes it, is an argument.
use heu.Base.{
  ℕ, zero, suc, ◌+◌, ◌*◌, ◌<◌, ◌≤◌, ◌≡◌, refl, ◌∙◌, Bool, false, List, [], ◌∷◌, ◌++◌, length, ltb,
  ◌==◌, if◌then◌else◌, lt→ltb, Result, ok, err, ◌>>=◌, ◌>>◌, enforce, arith,
}
use heu.Base.{cofactor_too_large, out_of_draws, illegal_input, too_big}
use heu.Base.Int.{pos, pos_part, neg_part}
use heu.ElGamal.Group.{IsGroup}
use heu.ElGamal.LookupTable.{Curve, init, table_max_value, search_max_value}
use heu.ElGamal.LookupTable.Fill.{NonEmpty, AllBelow, numbers}
use heu.ElGamal.LookupTable.Giant.{in_reach}
use heu.ElGamal.LookupTable.Complete.{Covers}
use heu.ElGamal.Scheme.{PublicKey, SecretKey, Ciphertext, decrypt}
use heu.ElGamal.Scheme.Circuit.{Circuit, value, InBounds, run}
use heu.ElGamal.Scheme.Homomorphic.{decrypt-run}

-- The bits n - 1 to 0, in this order.
unfoldable pub clear_low : (ℕ → ℕ → ℕ) → ℕ → ℕ → ℕ
clear_low clear_bit zero x = x
clear_low clear_bit (suc i) x = clear_low clear_bit i (clear_bit x i)

module _ (clear_bit : ℕ → ℕ → ℕ) (cofactor cofactor_bits : ℕ) where
  -- The loop that draws the secret; an empty list is a source that gives nothing more.
  unfoldable pub draw_key : List ℕ → Result ℕ
  unfolding clear_low
  draw_key [] = err out_of_draws
  draw_key (x ∷ draws) = do
    (if ltb 0 cofactor then enforce (ltb cofactor_bits 10) cofactor_too_large else ok tt)
    let rest = draw_key draws
    let cleared = clear_low clear_bit cofactor_bits x
    if ltb 0 cleared then ok cleared else rest

  module _ {P : Type 0} (c : Curve P) (slots_for : ℕ → ℕ) (blocks : List (ℕ × ℕ)) where
    -- The constructor of the secret key fills the table.
    unfoldable pub generate : List ℕ → Result (SecretKey P × PublicKey P)
    unfolding draw_key
    generate draws = do
      x ← draw_key draws
      table ← init c table_max_value slots_for blocks
      ok (
        record { x = pos x; curve = c; table = table },
        record { curve = c; h = c.mul_base (pos x) },
      )

    -- With a key size: it becomes 256 before it is checked.
    unfoldable pub generate_sized : ℕ → List ℕ → Result (SecretKey P × PublicKey P)
    unfolding generate
    generate_sized key_size draws =
        let size = if key_size == 256 then key_size else 256 in
        do enforce (size == 256) illegal_input; generate draws

  -- Draws that are all cleared to 0.
  unfoldable pub AllCleared : List ℕ → Type 0
  unfolding clear_low
  AllCleared [] = Unit
  AllCleared (x ∷ xs) = (clear_low clear_bit cofactor_bits x ≡ 0) × AllCleared xs

  check_ok :
      cofactor_bits < 10
      → (if ltb 0 cofactor then enforce (ltb cofactor_bits 10) cofactor_too_large else ok tt)
        ≡ ok tt
  check_ok small = rw (lt→ltb cofactor_bits 10 small) (ground arith)

  draw_key-append :
      (before after : List ℕ) (x : ℕ)
      → cofactor_bits < 10
      → AllCleared before
      → 0 < clear_low clear_bit cofactor_bits x
      → draw_key (before ++ x ∷ after) ≡ ok (clear_low clear_bit cofactor_bits x)
  unfolding draw_key AllCleared
  draw_key-append [] after x small cleared some_key = rw (check_ok small, lt→ltb 0 _ some_key) refl
  draw_key-append (y ∷ before) after x small (cleared, others) some_key =
      rw (check_ok small, cleared) (draw_key-append before after x small others some_key)

  module _ (test_bit : ℕ → ℕ → Bool) where
    -- What is documented of `SetBit(i, 0)`: bit i is cleared, and the others are kept.
    abbrev pub ClearsBit : Type 0
    ClearsBit = (x i j : ℕ) → test_bit (clear_bit x i) j ≡ (if i == j then false else test_bit x j)

    clear_low-test :
        (n x j : ℕ)
        → ClearsBit
        → test_bit (clear_low clear_bit n x) j ≡ (if ltb j n then false else test_bit x j)
    unfolding clear_low
    clear_low-test zero x j clears = ground arith
    clear_low-test (suc i) x j clears =
        clear_low-test i (clear_bit x i) j clears ∙ rw (clears x i j) (ground arith)

    -- For a bit operation as documented and a cofactor of fewer than 10 bits, the loop returns the
    -- first draw that is positive once the bits below the cofactor's bit count are cleared: all of
    -- these bits of the secret are 0, and the others are those of the draw.
    pub draw_key-test :
        (before after : List ℕ) (x j : ℕ)
        → ClearsBit
        → cofactor_bits < 10
        → AllCleared before
        → 0 < clear_low clear_bit cofactor_bits x
        → (key : ℕ) × (draw_key (before ++ x ∷ after) ≡ ok key)
          × (0 < key)
          × (test_bit key j ≡ (if ltb j cofactor_bits then false else test_bit x j))
    draw_key-test before after x j clears small cleared some_key = (
      clear_low clear_bit cofactor_bits x,
      draw_key-append before after x small cleared some_key,
      some_key,
      clear_low-test cofactor_bits x j clears,
    )

  generate_sized_lem :
      {P : Type 0} (c : Curve P) (slots_for : ℕ → ℕ) (blocks : List (ℕ × ℕ)) (key_size : ℕ)
      (draws : List ℕ)
      → generate_sized c slots_for blocks key_size draws ≡ generate c slots_for blocks draws
  unfolding generate_sized
  generate_sized_lem c slots_for blocks key_size draws = ground arith

  -- For a curve group whose multiples of the generator are distinct within the window, ranges that
  -- hand out exactly the numbers below the size of the table, and a draw that is positive once it
  -- is cleared: key generation succeeds, for any key size. Under these keys every computation of the encryptor and
  -- the evaluator whose encrypted plaintexts are within the bound succeeds, and its decryption is
  -- the arithmetic on the plaintexts if that lies from -2^32 to 2^32 - 1, and else fails as too
  -- big, as far as the window goes.
  pub decrypt-generate :
      {P : Type 0} (c : Curve P) {window : ℕ} (g : IsGroup c window) (slots_for : ℕ → ℕ)
      (blocks : List (ℕ × ℕ)) (before after : List ℕ) (x key_size : ℕ) (e : Circuit)
      → cofactor_bits < 10
      → AllCleared before
      → 0 < clear_low clear_bit cofactor_bits x
      → 0 < slots_for table_max_value
      → NonEmpty blocks
      → AllBelow table_max_value (numbers blocks)
      → length (numbers blocks) ≤ table_max_value
      → Covers table_max_value blocks
      → InBounds e
      → pos_part (value e) + neg_part (value e) + search_max_value * table_max_value ≤ window
      → (sk : SecretKey P) × (pk : PublicKey P) × (generate_sized c slots_for blocks key_size
            (before ++ x ∷ after)
          ≡ ok (sk, pk))
        × (ct : Ciphertext P) × (run pk e ≡ ok ct)
        × (decrypt pk sk ct ≡ (
            if in_reach (search_max_value * table_max_value) (value e)
            then ok (value e)
            else err too_big))
  unfolding generate
  decrypt-generate c g slots_for blocks before after x key_size e small cleared some_key slots full
        below few covers bounds near =
      let key = clear_low clear_bit cofactor_bits x in
      let (t, filled, ct, ran, decrypted) =
        decrypt-run c g (pos key) slots_for blocks e slots full below few covers bounds near in
      (
        record { x = pos key; curve = c; table = t },
        record { curve = c; h = c.mul_base (pos key) },
        generate_sized_lem c slots_for blocks key_size (before ++ x ∷ after)
            ∙ rw (draw_key-append before after x small cleared some_key, filled) refl,
        ct,
        ran,
        decrypted,
      )
