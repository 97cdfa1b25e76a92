-- ===== src/ElGamal/LookupTable/Fill.antt =====
-- What the table holds after `Init`.
use heu.Base.{
  ℕ, zero, suc, ◌+◌, ◌-◌, ◌<◌, ◌≤◌, ◌≡◌, ◌↔◌, refl, sym, ap, ◌∙◌, Bool, true, false, List, [], ◌∷◌,
  ◌++◌, some, length, length-map, map, ◌==◌, ==_iff, if◌then◌else◌, Result, ok, err, ◌>>=◌, ◌>>◌,
  Bool-cases, inl, inr, arith,
}
use heu.Base.Int.{ℤ, pos}
use heu.ElGamal.HashMap.{HashMap, create, insert, find_chain}
use heu.ElGamal.HashMap.Laws.{insert_all, insert_all-create}
use heu.ElGamal.LookupTable.{
  Curve, LookupTable, put, fill_block, init_block, init_blocks, init, look_up, search,
}

-- What the table relies on: adding the generator gives the next multiple, the test of equality
-- decides it, equal points have equal hashes, and the multiples below `size` are distinct.
pub record IsCurve {P : Type 0} (c : Curve P) (size : ℕ) : Type 0 where
  pub next_is : (i : ℕ) → c.add (c.mul_base (pos i)) c.generator ≡ c.mul_base (pos (i + 1))
  pub equal_iff : (p q : P) → (c.point_equal p q ≡ true) ↔ (p ≡ q)
  pub hash_is : (p q : P) → c.point_equal p q ≡ true → c.hash_point p ≡ c.hash_point q
  pub distinct : (a b : ℕ) → a < size → b < size → c.mul_base (pos a) ≡ c.mul_base (pos b) → a ≡ b

unfoldable pub range : ℕ → ℕ → List ℕ
range zero i = []
range (suc n) i = i ∷ range n (i + 1)

-- The numbers of the ranges, in the order in which they are inserted.
unfoldable pub numbers : List (ℕ × ℕ) → List ℕ
unfolding range
numbers [] = []
numbers ((beg, end) ∷ bs) = range (end - beg) beg ++ numbers bs

unfoldable pub NonEmpty : List (ℕ × ℕ) → Type 0
NonEmpty [] = Unit {0}
NonEmpty ((beg, end) ∷ bs) = (beg < end) × NonEmpty bs

abbrev pub AllBelow : ℕ → List ℕ → Type 0
AllBelow size [] = Unit {0}
AllBelow size (n ∷ ns) = (n < size) × AllBelow size ns

abbrev pub member : ℕ → List ℕ → Bool
member z [] = false
member z (x ∷ xs) = if x == z then true else member z xs

bind_unit :
    {T S : Type 0} (r : Result (Unit {0})) (t : T) (f : T → Result S)
    → ((r >> ok t) >>= f) ≡ (r >> f t)
bind_unit (ok u) t f = refl
bind_unit (err e) t f = refl

bind_assoc :
    {S T : Type 0} (r : Result (Unit {0})) (m : Result S) (f : S → Result T)
    → ((r >> m) >>= f) ≡ (r >> (m >>= f))
bind_assoc (ok u) m f = refl
bind_assoc (err e) m f = refl

bind_same :
    {S T : Type 0} (m : Result S) (f h : S → Result T)
    → ((a : S) → f a ≡ h a)
    → (m >>= f) ≡ (m >>= h)
bind_same (ok a) f h e = e a
bind_same (err x) f h e = refl

search_found :
    {P : Type 0} (t : LookupTable P) (size steps : ℕ) (p : P) (v : ℤ)
    → look_up t p ≡ some v
    → search t size steps p ≡ ok v
unfolding search
search_found t size steps p v h = rw (h, search) refl

module _ {P : Type 0} (c : Curve P) {size : ℕ} (g : IsCurve c size) where
  abbrev pub pairs : List ℕ → List (P × ℤ)
  pairs ns = map (λ i. (c.mul_base (pos i), pos i)) ns

  abbrev insert_pairs : HashMap P ℤ → List ℕ → Result (HashMap P ℤ)
  insert_pairs table ns = insert_all c.hash_point c.point_equal table (pairs ns)

  insert_pairs-append :
      (table : HashMap P ℤ) (ns ms : List ℕ)
      → insert_pairs table (ns ++ ms) ≡ (insert_pairs table ns >>= λ t. insert_pairs t ms)
  unfolding insert_all
  insert_pairs-append table [] ms = refl
  insert_pairs-append table (n ∷ ns) ms =
      ap (λ r. (insert c.hash_point c.point_equal table (c.mul_base (pos n)) (pos n)).1 >> r)
        (insert_pairs-append
          (insert c.hash_point c.point_equal table (c.mul_base (pos n)) (pos n)).0 ns ms)
      ∙ sym
          (bind_assoc (insert c.hash_point c.point_equal table (c.mul_base (pos n)) (pos n)).1 _ _)

  fill_block_lem :
      (n i : ℕ) (table : HashMap P ℤ)
      → fill_block c n (i + 1) (c.mul_base (pos i)) table ≡ insert_pairs table (range n (i + 1))
  unfolding fill_block put range insert_all
  fill_block_lem zero i table = refl
  fill_block_lem (suc n) i table = rw (g.next_is i) (
      bind_unit (insert c.hash_point c.point_equal table (c.mul_base (pos (i + 1))) (pos (i + 1))).1
        _ _
      ∙ ap
          (λ r.
            (insert c.hash_point c.point_equal table (c.mul_base (pos (i + 1))) (pos (i + 1))).1
            >> r)
          (fill_block_lem n (i + 1)
            (insert c.hash_point c.point_equal table (c.mul_base (pos (i + 1))) (pos (i + 1))).0))

  init_block_lem :
      (beg end : ℕ) (table : HashMap P ℤ)
      → beg < end
      → init_block c (beg, end) table ≡ insert_pairs table (range (end - beg) beg)
  unfolding init_block put range insert_all
  init_block_lem beg end table h =
      let e : end - beg ≡ suc (end - (beg + 1)) = omega arith in
      rw e (
        bind_unit (insert c.hash_point c.point_equal table (c.mul_base (pos beg)) (pos beg)).1 _ _
        ∙ ap
            (λ r. (insert c.hash_point c.point_equal table (c.mul_base (pos beg)) (pos beg)).1 >> r)
            (fill_block_lem (end - (beg + 1)) beg
              (insert c.hash_point c.point_equal table (c.mul_base (pos beg)) (pos beg)).0))

  init_blocks_lem :
      (bs : List (ℕ × ℕ)) (table : HashMap P ℤ)
      → NonEmpty bs
      → init_blocks c bs table ≡ insert_pairs table (numbers bs)
  unfolding init_blocks numbers NonEmpty insert_all
  init_blocks_lem [] table h = refl
  init_blocks_lem ((beg, end) ∷ bs) table (h, hs) = rw (init_block_lem beg end table h) (
      bind_same (insert_pairs table (range (end - beg) beg)) _ _ (λ t. init_blocks_lem bs t hs)
      ∙ sym (insert_pairs-append table (range (end - beg) beg) (numbers bs)))

  -- Among the pairs, the one of a listed number is found at its point.
  pub find_chain-pairs :
      (ns : List ℕ) (z : ℕ)
      → AllBelow size ns
      → z < size
      → member z ns ≡ true
      → find_chain c.point_equal (c.mul_base (pos z)) (pairs ns) ≡ some (pos z)
  unfolding find_chain
  find_chain-pairs [] z below lt h = cc
  find_chain-pairs (n ∷ ns) z (first, below) lt h = elim (Bool-cases (n == z)) [
    | inl hit ↦
        let e : n ≡ z = (==_iff n z).0 hit in
        let same =
          (g.equal_iff (c.mul_base (pos n)) (c.mul_base (pos z))).1
            (ap (λ k. c.mul_base (pos k)) e) in
        rw same (ap (λ k. some (pos k)) e)
    | inr miss ↦ elim (Bool-cases (c.point_equal (c.mul_base (pos n)) (c.mul_base (pos z)))) [
      | inl same ↦
          let e : n ≡ z = g.distinct n z first lt ((g.equal_iff _ _).0 same) in
          absurd (ground arith)
      | inr differ ↦ rw differ (find_chain-pairs ns z below lt (rw miss at h))
    ]
  ]

  -- What `Init` returns, and what it finds.
  pub init_table :
      (slots_for : ℕ → ℕ) (blocks : List (ℕ × ℕ))
      → 0 < slots_for size
      → NonEmpty blocks
      → length (numbers blocks) ≤ size
      → (t : LookupTable P) × (init c size slots_for blocks ≡ ok t)
        × (t.curve ≡ c)
        × (t.table_max_pos ≡ c.mul_base (pos size))
        × (t.table_max_neg ≡ c.negate (c.mul_base (pos size)))
        × ((p : P) → look_up t p ≡ find_chain c.point_equal p (pairs (numbers blocks)))
  unfolding init
  init_table slots_for blocks slots full few =
      let (table, run, finds) =
        insert_all-create c.hash_point c.point_equal g.hash_is slots_for size
          (pairs (numbers blocks)) slots
          (omega (
            arith,
            few,
            length-map {B = P × ℤ} (λ i. (c.mul_base (pos i), pos i)) (numbers blocks),
          )) in
      (
        record {
          curve = c;
          table = table;
          table_max_pos = c.mul_base (pos size);
          table_max_neg = c.negate (c.mul_base (pos size));
        },
        rw (init_blocks_lem blocks (create slots_for size) full, run) refl,
        refl,
        refl,
        refl,
        finds,
      )

  -- For a curve as described, with at least one slot, and ranges that are not empty and hand out
  -- numbers below the size of the table, at most as many as it holds, `Init` succeeds, and `Search`
  -- then recovers each of these numbers from its multiple of the generator.
  pub init-search :
      (slots_for : ℕ → ℕ) (blocks : List (ℕ × ℕ)) (steps z : ℕ)
      → 0 < slots_for size
      → NonEmpty blocks
      → AllBelow size (numbers blocks)
      → length (numbers blocks) ≤ size
      → member z (numbers blocks) ≡ true
      → z < size
      → (t : LookupTable P) × (init c size slots_for blocks ≡ ok t)
        × (search t size steps (c.mul_base (pos z)) ≡ ok (pos z))
  init-search slots_for blocks steps z slots full below few listed lt =
      let (t, run, same_curve, high, low, finds) = init_table slots_for blocks slots full few in
      (
        t,
        run,
        search_found t size steps _ _
            (finds (c.mul_base (pos z)) ∙ find_chain-pairs (numbers blocks) z below lt listed),
      )
