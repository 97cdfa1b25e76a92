-- ===== src/ElGamal/LookupTable/Complete.antt =====
-- `Init` with ranges that hand out every number below the size of the table, and `Search` on it.
use heu.Base.{
  ℕ, zero, suc, ◌+◌, ◌*◌, ◌<◌, ◌≤◌, ◌≡◌, refl, sym, ap, ◌∙◌, true, List, [], ◌∷◌, none, length,
  if◌then◌else◌, ok, err, Bool-cases, inl, inr, arith,
}
use heu.Base.{too_big}
use heu.Base.Int.{ℤ, pos, negsuc, ◌+ℤ◌, pos_part, neg_part, neg_ℤ}
use heu.ElGamal.HashMap.{find_chain}
use heu.ElGamal.Group.{IsGroup, add-base, negate-base, sub_opposite}
use heu.ElGamal.LookupTable.{Curve, LookupTable, init, look_up, search}
use heu.ElGamal.LookupTable.Fill.{
  IsCurve, NonEmpty, AllBelow, numbers, member, pairs, init_table, find_chain-pairs,
}
use heu.ElGamal.LookupTable.Giant.{Holds, search_all, in_reach}

pos_apart : (a b : ℕ) → pos a ≡ pos b → a ≡ b
pos_apart a b e = ap pos_part e

-- The ranges hand out every number below `size`.
abbrev pub Covers : ℕ → List (ℕ × ℕ) → Type 0
Covers size blocks = (k : ℕ) → k < size → member k (numbers blocks) ≡ true

module _ {P : Type 0} (c : Curve P) {window : ℕ} (g : IsGroup c window) where
  next_point : (i : ℕ) → c.add (c.mul_base (pos i)) c.generator ≡ c.mul_base (pos (i + 1))
  next_point i =
      ap (c.add (c.mul_base (pos i))) (sym g.generator_is)
      ∙ (add-base c g (pos i) (pos 1) ∙ ap c.mul_base (unfold ◌+ℤ◌ in (ground arith)))

  IsGroup-IsCurve : (size : ℕ) → size ≤ window → IsCurve c size
  IsGroup-IsCurve size w = record {
    next_is = next_point;
    equal_iff = g.equal_iff;
    hash_is = g.hash_is;
    distinct = λ a b h k e. pos_apart a b (g.distinct (pos a) b (omega arith) (omega arith) e);
  }

  -- A number that is none of those inserted is not found.
  find_chain-absent :
      (size : ℕ) (w : size ≤ window) (ns : List ℕ) (m : ℤ)
      → AllBelow size ns
      → pos_part m + neg_part m ≤ window
      → ((k : ℕ) → k < size → m ≡ pos k → ⊥)
      → find_chain c.point_equal (c.mul_base m) (pairs c (IsGroup-IsCurve size w) ns) ≡ none
  unfolding find_chain
  find_chain-absent size w [] m below near outside = refl
  find_chain-absent size w (n ∷ ns) m (first, below) near outside =
      elim (Bool-cases (c.point_equal (c.mul_base (pos n)) (c.mul_base m))) [
        | inl same ↦
            absurd
              (outside n first (g.distinct m n near (omega arith) (sym ((g.equal_iff _ _).0 same))))
        | inr differ ↦ rw differ (find_chain-absent size w ns m below near outside)
      ]

  init-Holds :
      (size : ℕ) (slots_for : ℕ → ℕ) (blocks : List (ℕ × ℕ))
      → size ≤ window
      → 0 < slots_for size
      → NonEmpty blocks
      → AllBelow size (numbers blocks)
      → length (numbers blocks) ≤ size
      → Covers size blocks
      → (t : LookupTable P) × (init c size slots_for blocks ≡ ok t)
        × (t.curve ≡ c)
        × Holds t size window
  init-Holds size slots_for blocks w slots full below few covers =
      let i = IsGroup-IsCurve size w in
      let (t, run, same_curve, high, low, finds) = init_table c i slots_for blocks slots full few in
      (
        t,
        run,
        same_curve,
        record {
          inside = λ k h.
              ap (λ (d : Curve P). look_up t (d.mul_base (pos k))) same_curve
              ∙ (finds (c.mul_base (pos k))
                  ∙ find_chain-pairs c i (numbers blocks) k below h (covers k h));
          above = λ k h j.
              ap (λ (d : Curve P). look_up t (d.mul_base (pos k))) same_curve
              ∙ (finds (c.mul_base (pos k))
                  ∙ find_chain-absent size w (numbers blocks) (pos k) below (omega arith)
                      (λ l o e. absurd (ground (arith, pos_apart k l e))));
          below = λ k h.
              ap (λ (d : Curve P). look_up t (d.mul_base (negsuc k))) same_curve
              ∙ (finds (c.mul_base (negsuc k))
                  ∙ find_chain-absent size w (numbers blocks) (negsuc k) below (omega arith)
                      (λ l o e. cc));
          forth = λ m. rw (same_curve, high) (add-base c g m (pos size));
          back = λ m.
              rw (same_curve, low, negate-base c g (pos size))
                (add-base c g m (neg_ℤ (pos size))
                  ∙ ap c.mul_base (sym (sub_opposite c g m (pos size))));
        },
      )

  -- For a curve group whose multiples of the generator are distinct within the window, with at
  -- least one slot, and ranges that are not empty and hand out exactly the numbers below the size
  -- of the table, `Init` succeeds. `Search` then gives back m from its multiple of the generator
  -- for every m from -steps * size to steps * size - 1, and fails as too big for every other
  -- number of the window, where `steps` is the bound of the loop over the giant steps.
  pub init-search_all :
      (size : ℕ) (slots_for : ℕ → ℕ) (blocks : List (ℕ × ℕ)) (steps : ℕ) (m : ℤ)
      → 0 < size
      → 0 < steps
      → 0 < slots_for size
      → NonEmpty blocks
      → AllBelow size (numbers blocks)
      → length (numbers blocks) ≤ size
      → Covers size blocks
      → pos_part m + neg_part m + steps * size ≤ window
      → (t : LookupTable P) × (init c size slots_for blocks ≡ ok t)
        × (search t size steps (c.mul_base m)
            ≡ (if in_reach (steps * size) m then ok m else err too_big))
  init-search_all size slots_for blocks (suc steps) m points rounds slots full below few covers
        near =
      let w : size ≤ window = omega arith in
      let (t, run, same_curve, holds) =
        init-Holds size slots_for blocks w slots full below few covers in
      (
        t,
        run,
        ap (λ (d : Curve P). search t size (suc steps) (d.mul_base m)) (sym same_curve)
            ∙ search_all t holds (suc steps) m points rounds near,
      )
  init-search_all size slots_for blocks zero m points rounds slots full below few covers near =
      absurd (omega arith)
