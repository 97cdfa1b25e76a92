-- ===== src/ElGamal/Examples.antt =====
-- The map on small numbers, with two keys in one chain.
pub mod Keys
use heu.Base.{ℕ, ◌%◌, ◌≡◌, refl, ap, Bool, true, [], ◌∷◌, some, ◌==◌, ==_iff, ok, err, arith}
use heu.Base.{hashmap_full, out_of_range}
use heu.ElGamal.HashMap.{HashMap, create, destroy, insert, find, find_chain}
use heu.ElGamal.HashMap.Laws.{or_else, insert_all, insert_full, find-insert, insert_all-create}
use heu.Base.{length, true, false, List, ◌≤◌}
use heu.Base.Int.{ℤ, ℤ_discrete, pos, pos_part, neg_ℤ, ◌+ℤ◌, ◌-ℤ◌, ◌*ℤ◌}
use heu.ElGamal.LookupTable.{Curve, LookupTable, init, search}
use heu.ElGamal.LookupTable.Fill.{IsCurve, NonEmpty, AllBelow, numbers, range, member, init-search}

abbrev even_odd : ℕ → ℕ
even_odd k = k % 2

abbrev same : ℕ → ℕ → Bool
same a b = a == b

same_hash : (a b : ℕ) → same a b ≡ true → even_odd a ≡ even_odd b
same_hash a b h = ap even_odd ((==_iff a b).0 h)

abbrev full_map : HashMap ℕ ℕ
full_map = record { slots = ((4, 40) ∷ []) ∷ ((1, 10) ∷ []) ∷ []; used = 2; capacity = 2 }

abbrev roomy_map : HashMap ℕ ℕ
roomy_map = record { slots = ((4, 40) ∷ []) ∷ ((1, 10) ∷ []) ∷ []; used = 2; capacity = 3 }

insert_full_example :
    ((insert even_odd same full_map 6 60).1 ≡ err hashmap_full)
    × ((insert even_odd same full_map 6 60).0.slots ≡ full_map.slots)
    × (destroy full_map ≡ ok tt)
    × (destroy (insert even_odd same full_map 6 60).0 ≡ err out_of_range)
insert_full_example = insert_full even_odd same full_map 6 60 refl

insert_all-create_example :
    (t : HashMap ℕ ℕ) × (insert_all even_odd same
        (create (λ n. n) 3)
        ((4, 40) ∷ (1, 10) ∷ (6, 60) ∷ [])
      ≡ ok t)
    × ((j : ℕ) → find even_odd same t j ≡ find_chain same j ((4, 40) ∷ (1, 10) ∷ (6, 60) ∷ []))
insert_all-create_example =
    insert_all-create even_odd same same_hash (λ n. n) 3 ((4, 40) ∷ (1, 10) ∷ (6, 60) ∷ [])
      (omega arith) (omega arith)

-- The integers as the curve, with a table of four points that two ranges fill.
abbrev pub integers : Curve ℤ
integers = record {
  mul_base = λ m. m;
  add = λ a b. a +ℤ b;
  negate = λ a. neg_ℤ a;
  sub = λ a b. a -ℤ b;
  mul = λ a k. a *ℤ k;
  mul_double_base = λ a b p. a +ℤ p *ℤ b;
  generator = pos 1;
  hash_point = λ a. pos_part a;
  point_equal = λ a b. elim (ℤ_discrete a b) [ yes p ↦ true | no p ↦ false ];
}

pub same_integer : (p q : ℤ) → integers.point_equal p q ≡ true → p ≡ q
same_integer p q h = ground arith

integers-IsCurve : IsCurve integers 4
unfolding ◌+ℤ◌
integers-IsCurve = record {
  next_is = λ i. ground arith;
  equal_iff = λ p q. ground arith;
  hash_is = λ p q h. ap pos_part (same_integer p q h);
  distinct = λ a b h k e. ap pos_part e;
}
