-- ===== src/ElGamal/Examples/Keys.antt =====
-- The scheme over the integers as the group, with the whole table handed out as one range.
use heu.Base.{
  ℕ, zero, suc, ◌+◌, ◌-◌, ◌*◌, ◌/◌, ◌%◌, ◌^◌, ◌<◌, ◌≤◌, ◌≡◌, refl, sym, ap, ◌∙◌, Bool, true, false,
  List, [], ◌∷◌, ◌++◌, length, ◌==◌, ltb, if◌then◌else◌, ok, err, Bool-cases, inl, inr, arith,
}
use heu.Base.{too_big}
use heu.Base.Int.{ℤ, pos, negsuc, pos_part, neg_part, neg_ℤ, ◌+ℤ◌, ◌-ℤ◌, ◌*ℤ◌, *ℤ_comm, eq_of_parts}
use heu.Base.Int.Ring as R
use heu.ElGamal.Group.{IsGroup}
use heu.ElGamal.Examples.{integers, same_integer}
use heu.ElGamal.LookupTable.{
  LookupTable, init, search, table_max_value, search_max_value, max_supported_value,
}
use heu.ElGamal.LookupTable.Fill.{NonEmpty, AllBelow, numbers, range, member}
use heu.ElGamal.LookupTable.Giant.{in_reach}
use heu.ElGamal.LookupTable.Complete.{Covers, init-search_all}
use heu.ElGamal.Scheme.{PublicKey, SecretKey, Ciphertext, decrypt}
use heu.ElGamal.Scheme.Circuit.{Circuit, value, InBounds, run}
use heu.ElGamal.KeyGenerator.{
  clear_low, draw_key, generate_sized, AllCleared, draw_key-test, decrypt-generate,
}

one_times : (a : ℤ) → a ≡ pos 1 *ℤ a
one_times a = eq_of_parts _ _ (omega (arith, R.*ℤ_parts (pos 1) a))

opposite : (a b : ℤ) → a -ℤ b ≡ a +ℤ neg_ℤ b
unfolding ◌+ℤ◌ ◌-ℤ◌
opposite a b = ground arith

vanish : (a : ℤ) → a +ℤ neg_ℤ a ≡ pos 0
unfolding ◌+ℤ◌
vanish a = ground arith

neutral : (a : ℤ) → pos 0 +ℤ a ≡ a
unfolding ◌+ℤ◌
neutral a = ground arith

add-mul : (a b p : ℤ) → (a +ℤ b) *ℤ p ≡ a *ℤ p +ℤ b *ℤ p
add-mul a b p = rw (*ℤ_comm (a +ℤ b) p, R.mul-add p a b, *ℤ_comm p a, *ℤ_comm p b)

-- The integers, which are distinct within every window.
integers-IsGroup : (window : ℕ) → IsGroup integers window
integers-IsGroup window = record {
  add_assoc = R.add_assoc;
  add_comm = R.add_comm;
  zero-add = neutral;
  add-negate = vanish;
  sub_is = opposite;
  generator_is = refl;
  mul_base_is = one_times;
  mul-sum = R.mul-add;
  mul-product = λ p a b. sym (R.mul_assoc p a b);
  mul-add = add-mul;
  double_is = λ a b p. refl;
  equal_iff = λ p q. ground arith;
  hash_is = λ p q h. ap pos_part (same_integer p q h);
  distinct = λ m k h j e. e;
}

length-range : (n i : ℕ) → length (range n i) ≡ n
unfolding range
length-range zero i = refl
length-range (suc n) i = ap suc (length-range n (i + 1))

range-AllBelow : (n i size : ℕ) → n + i ≤ size → AllBelow size (range n i)
unfolding range
range-AllBelow zero i size h = tt
range-AllBelow (suc n) i size h = (omega arith, range-AllBelow n (i + 1) size (omega arith))

member-range : (n i k : ℕ) → i ≤ k → k < n + i → member k (range n i) ≡ true
unfolding range
member-range zero i k h j = absurd (omega arith)
member-range (suc n) i k h j = elim (Bool-cases (i == k)) [
  | inl hit ↦ rw hit
  | inr miss ↦ rw miss (member-range n (i + 1) k (ground arith) (omega arith))
]

append-nil : (ns : List ℕ) → ns ++ [] ≡ ns
append-nil [] = refl
append-nil (n ∷ ns) = ap (λ t. n ∷ t) (append-nil ns)

abbrev whole : ℕ → List (ℕ × ℕ)
whole size = (0, size) ∷ []

whole-numbers : (size : ℕ) → numbers (whole size) ≡ range size 0
unfolding numbers
whole-numbers size = append-nil (range (size - 0) 0) ∙ ap (λ n. range n 0) (omega arith)

whole-NonEmpty : (size : ℕ) → 0 < size → NonEmpty (whole size)
unfolding NonEmpty
whole-NonEmpty size h = (h, tt)

whole-AllBelow : (size : ℕ) → AllBelow size (numbers (whole size))
whole-AllBelow size = rw whole-numbers (range-AllBelow size 0 size (omega arith))

whole-length : (size : ℕ) → length (numbers (whole size)) ≤ size
whole-length size = rw (whole-numbers, length-range) (omega arith)

whole-Covers : (size : ℕ) → Covers size (whole size)
whole-Covers size = λ k h. rw whole-numbers (member-range size 0 k (omega arith) (omega arith))

init-search_all_example :
    (t : LookupTable ℤ) × (init integers 4 (λ n. n) (whole 4) ≡ ok t)
    × (search t 4 3 (negsuc 11)
        ≡ (if in_reach (3 * 4) (negsuc 11) then ok (negsuc 11) else err too_big))
init-search_all_example =
    init-search_all integers (integers-IsGroup 40) 4 (λ n. n) (whole 4) 3 (negsuc 11) (omega arith)
      (omega arith) (omega arith) (whole-NonEmpty 4 (omega arith)) (whole-AllBelow 4)
      (whole-length 4) (whole-Covers 4) (omega arith)

-- The bits of a number, and one of them cleared.
test : ℕ → ℕ → Bool
test x zero = x % 2 == 1
test x (suc j) = test (x / 2) j

clear : ℕ → ℕ → ℕ
clear x zero = 2 * (x / 2)
clear x (suc i) = 2 * clear (x / 2) i + x % 2

clear-ClearsBit : (x i j : ℕ) → test (clear x i) j ≡ (if i == j then false else test x j)
unfolding test clear
clear-ClearsBit x zero zero = ground arith
clear-ClearsBit x zero (suc j) =
    let e : 2 * (x / 2) / 2 ≡ x / 2 = omega arith in
    let no : (0 == suc j) ≡ false = ground arith in rw (e, no)
clear-ClearsBit x (suc i) zero =
    let e : (2 * clear (x / 2) i + x % 2) % 2 ≡ x % 2 = omega arith in
    let no : (suc i == 0) ≡ false = ground arith in rw (e, no)
clear-ClearsBit x (suc i) (suc j) =
    let e : (2 * clear (x / 2) i + x % 2) / 2 ≡ clear (x / 2) i = omega arith in
    let same : (i == j) ≡ (suc i == suc j) = ground arith in
    rw (e, ← same) (clear-ClearsBit (x / 2) i j)

-- -(5 + -2) * 4 + 1
abbrev circuit : Circuit
circuit =
    Circuit.add_plain
      (Circuit.mul
        (Circuit.negate (Circuit.add (Circuit.encrypt (pos 5) 3) (Circuit.encrypt (negsuc 1) 7)))
        (pos 4))
      (pos 1)

-- A draw that is cleared to 0 comes before the one that is taken.
eleven_cleared : AllCleared clear 8 4 (11 ∷ [])
unfolding AllCleared clear_low clear
eleven_cleared = (refl, tt)

circuit_bounds : InBounds circuit
unfolding InBounds max_supported_value table_max_value search_max_value
circuit_bounds = (omega arith, omega arith)

circuit_near :
    pos_part (value circuit) + neg_part (value circuit) + search_max_value * table_max_value
    ≤ 2 ^ 40
unfolding value table_max_value search_max_value ◌+ℤ◌ ◌*ℤ◌
circuit_near = omega arith

fifty_kept : 0 < clear_low clear 4 50
unfolding clear_low clear
fifty_kept = omega arith

table_points : 0 < table_max_value
unfolding table_max_value
table_points = omega arith

draw_key-test_example :
    (key : ℕ) × (draw_key clear 8 4 (11 ∷ 50 ∷ []) ≡ ok key)
    × (0 < key)
    × (test key 3 ≡ (if ltb 3 4 then false else test 50 3))
draw_key-test_example =
    draw_key-test clear 8 4 test (11 ∷ []) [] 50 3 clear-ClearsBit (omega arith) eleven_cleared
      fifty_kept

decrypt-generate_example :
    (sk : SecretKey ℤ) × (pk : PublicKey ℤ) × (generate_sized clear 8 4 integers
        (λ n. n)
        (whole table_max_value)
        2048
        (11 ∷ 50 ∷ [])
      ≡ ok (sk, pk))
    × (ct : Ciphertext ℤ) × (run pk circuit ≡ ok ct)
    × (decrypt pk sk ct ≡ (
        if in_reach (search_max_value * table_max_value) (value circuit)
        then ok (value circuit)
        else err too_big))
decrypt-generate_example =
    decrypt-generate clear 8 4 integers (integers-IsGroup (2 ^ 40)) (λ n. n) (whole table_max_value)
      (11 ∷ []) [] 50 2048 circuit (omega arith) eleven_cleared fifty_kept table_points
      (whole-NonEmpty table_max_value table_points) (whole-AllBelow table_max_value)
      (whole-length table_max_value) (whole-Covers table_max_value) circuit_bounds circuit_near
