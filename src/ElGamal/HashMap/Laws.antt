-- ===== src/ElGamal/HashMap/Laws.antt =====
-- The map against the list of the pairs that were inserted.
use heu.Base.{
  ℕ, zero, suc, ◌+◌, ◌%◌, ◌<◌, ◌≤◌, ◌≡◌, inl, inr, refl, sym, ap, ◌∙◌, Bool, true, false, List, [],
  ◌∷◌, Option, none, some, length, get_or, set, replicate, length-set, length-replicate,
  get_or-set_self, get_or-set_ne, ltb, lt→ltb, if◌then◌else◌, Result, ok, err, ◌>>◌, Bool-cases,
  arith,
}
use heu.Base.{hashmap_full, out_of_range}
use native.Mathlib.Decide.{ℕ_discrete}
use native.Mathlib.Nat.{mod-lt}
use heu.ElGamal.HashMap.{
  HashMap, create, destroy, destroy_from, append_node, slot_index, insert, find, find_chain,
}

-- A result, or else another.
abbrev pub or_else : {V : Type 0} → Option V → Option V → Option V
or_else (some v) o = some v
or_else none o = o

destroy_beyond :
    (n i capacity : ℕ)
    → capacity < i + n
    → i ≤ capacity
    → destroy_from n i capacity ≡ err out_of_range
unfolding destroy_from
destroy_beyond zero i capacity h k = absurd (omega arith)
destroy_beyond (suc n) i capacity h k = ground (arith, destroy_beyond n (i + 1) capacity)

destroy_within : (n i capacity : ℕ) → i + n ≤ capacity → destroy_from n i capacity ≡ ok tt
unfolding destroy_from
destroy_within zero i capacity h = refl
destroy_within (suc n) i capacity h = ground (arith, destroy_within n (i + 1) capacity)

or_else-none : {V : Type 0} (o : Option V) → or_else o none ≡ o
or_else-none none = refl
or_else-none (some v) = refl

module _ {K V : Type 0} (equalor : K → K → Bool) where
  find_chain-append_node :
      (key j : K) (value : V) (ps : List (K × V))
      → find_chain equalor j (append_node ps (key, value))
        ≡ or_else (find_chain equalor j ps) (if equalor key j then some value else none)
  unfolding find_chain append_node
  find_chain-append_node key j value [] = refl
  find_chain-append_node key j value ((k, v) ∷ ps) = elim (Bool-cases (equalor k j)) [
    | inl t ↦ rw t refl
    | inr t ↦ rw t (find_chain-append_node key j value ps)
  ]

module _ {K V : Type 0} (hasher : K → ℕ) (equalor : K → K → Bool) where
  -- A map that is full refuses a pair, keeps its chains, and its destructor then reads behind the
  -- end of the pool; before that call the destructor stays within it.
  pub insert_full :
      (m : HashMap K V) (key : K) (value : V)
      → m.used ≡ m.capacity
      → ((insert hasher equalor m key value).1 ≡ err hashmap_full)
        × ((insert hasher equalor m key value).0.slots ≡ m.slots)
        × (destroy m ≡ ok tt)
        × (destroy (insert hasher equalor m key value).0 ≡ err out_of_range)
  unfolding insert destroy
  insert_full m key value full =
      let no : ltb m.used m.capacity ≡ false = ground arith in
      (
        rw no refl,
        rw no refl,
        destroy_within m.used 0 m.capacity (omega arith),
        rw no (destroy_beyond (m.used + 1) 0 m.capacity (omega arith) (omega arith)),
      )

  module _ (respects : (a b : K) → equalor a b ≡ true → hasher a ≡ hasher b) where
    -- Where equal keys have equal hashes, in a map with a slot and room in the pool, an insertion
    -- succeeds and puts the new pair behind those of its key: a look-up finds what it found
    -- before, and else the new value, if the keys are equal.
    pub find-insert :
        (m : HashMap K V) (key j : K) (value : V)
        → 0 < length m.slots
        → m.used < m.capacity
        → ((insert hasher equalor m key value).1 ≡ ok tt)
          × (find hasher equalor (insert hasher equalor m key value).0 j
              ≡ or_else (find hasher equalor m j) (if equalor key j then some value else none))
    unfolding insert find
    find-insert m key j value pos room =
        let yes' : ltb m.used m.capacity ≡ true = lt→ltb _ _ room in
        (
          rw yes' refl,
          rw yes'
              (look (ℕ_discrete (slot_index hasher equalor m key) (slot_index hasher equalor m j))),
        )
      where
        new : List (List (K × V))
        new =
            set m.slots (slot_index hasher equalor m key)
              (append_node (get_or m.slots (slot_index hasher equalor m key) []) (key, value))

        tail : Option V
        tail = if equalor key j then some value else none

        sizes : length new ≡ length m.slots
        sizes = length-set m.slots (slot_index hasher equalor m key) _

        look :
            Dec (slot_index hasher equalor m key ≡ slot_index hasher equalor m j)
            → find_chain equalor j (get_or new (hasher j % length new) [])
              ≡ or_else
                  (find_chain equalor j (get_or m.slots (slot_index hasher equalor m j) []))
                  tail
        look (yes e) =
            ap (λ n. find_chain equalor j (get_or new (hasher j % n) [])) sizes
            ∙ (ap (λ i. find_chain equalor j (get_or new i [])) (sym e)
                ∙ (ap (find_chain equalor j) (
                      get_or-set_self m.slots (slot_index hasher equalor m key) _ []
                        (mod-lt (hasher key) pos))
                    ∙ (find_chain-append_node equalor key j value _
                        ∙ ap (λ i. or_else (find_chain equalor j (get_or m.slots i [])) tail) e)))
        look (no ne) =
            let differ : equalor key j ≡ false = elim (Bool-cases (equalor key j)) [
              | inl t ↦ absurd (ne (ap (λ h. h % length m.slots) (respects key j t)))
              | inr t ↦ t
            ] in
            ap (λ n. find_chain equalor j (get_or new (hasher j % n) [])) sizes
            ∙ (ap (find_chain equalor j) (
                  get_or-set_ne m.slots (slot_index hasher equalor m key)
                    (slot_index hasher equalor m j) _ [] ne)
                ∙ rw differ (
                    sym (
                      or_else-none (
                        find_chain equalor j (get_or m.slots (slot_index hasher equalor m j) [])))))

  insert_fields :
      (m : HashMap K V) (key : K) (value : V)
      → m.used < m.capacity
      → ((insert hasher equalor m key value).0.used ≡ m.used + 1)
        × ((insert hasher equalor m key value).0.capacity ≡ m.capacity)
        × (length (insert hasher equalor m key value).0.slots ≡ length m.slots)
  unfolding insert
  insert_fields m key value room =
      rw (lt→ltb _ _ room) (refl, refl, length-set m.slots (slot_index hasher equalor m key) _)

  -- Insertions one after the other, up to the first that fails.
  unfoldable pub insert_all : HashMap K V → List (K × V) → Result (HashMap K V)
  insert_all m [] = ok m
  insert_all m ((k, v) ∷ ps) = do
    (insert hasher equalor m k v).1
    insert_all (insert hasher equalor m k v).0 ps

  find-create :
      (slots_for : ℕ → ℕ) (n : ℕ) (j : K)
      → find hasher equalor (create {V = V} slots_for n) j ≡ none
  unfolding find create
  find-create slots_for n j = ap (find_chain equalor j) (get_or-empty (slots_for n) _) ∙ nothing
    where
      get_or-empty : (k i : ℕ) → get_or {A = List (K × V)} (replicate k []) i [] ≡ []
      get_or-empty zero i = refl
      get_or-empty (suc k) zero = refl
      get_or-empty (suc k) (suc i) = get_or-empty k i

      nothing : find_chain {V = V} equalor j [] ≡ none
      nothing = unfold find_chain in refl

  module _ (respects : (a b : K) → equalor a b ≡ true → hasher a ≡ hasher b) where
    or_else_assoc : (a b c : Option V) → or_else (or_else a b) c ≡ or_else a (or_else b c)
    or_else_assoc none b c = refl
    or_else_assoc (some v) b c = refl

    find_chain_head :
        (j k : K) (v : V) (ps : List (K × V))
        → or_else (if equalor k j then some v else none) (find_chain equalor j ps)
          ≡ find_chain equalor j ((k, v) ∷ ps)
    unfolding find_chain
    find_chain_head j k v ps = elim (Bool-cases (equalor k j)) [
      | inl t ↦ rw t refl
      | inr t ↦ rw t refl
    ]

    insert_all_finds :
        (ps : List (K × V)) (m : HashMap K V)
        → 0 < length m.slots
        → m.used + length ps ≤ m.capacity
        → (t : HashMap K V) × (insert_all m ps ≡ ok t)
          × ((j : K)
              → find hasher equalor t j
                ≡ or_else (find hasher equalor m j) (find_chain equalor j ps))
    unfolding insert_all find_chain
    insert_all_finds [] m pos room = (m, refl, λ j. sym (or_else-none _))
    insert_all_finds ((k, v) ∷ ps) m pos room =
        let below : m.used < m.capacity = omega arith in
        let f = insert_fields m k v below in
        let (t, run, finds) =
          insert_all_finds ps (insert hasher equalor m k v).0 (rw f.2 pos)
            (omega (arith, f.0, f.1)) in
        (
          t,
          rw ((find-insert respects m k k v pos below).0) run,
          λ j.
              finds j
              ∙ (ap (λ o. or_else o (find_chain equalor j ps))
                    (find-insert respects m k j v pos below).1
                  ∙ (or_else_assoc (find hasher equalor m j) _ _
                      ∙ ap (or_else (find hasher equalor m j)) (find_chain_head j k v ps))),
        )

    -- Where equal keys have equal hashes, in a new map with a slot, as many insertions as the
    -- constructor was told succeed, and `Find` then gives the value of the first inserted pair
    -- whose key is equal, if there is one.
    pub insert_all-create :
        (slots_for : ℕ → ℕ) (n : ℕ) (ps : List (K × V))
        → 0 < slots_for n
        → length ps ≤ n
        → (t : HashMap K V) × (insert_all (create slots_for n) ps ≡ ok t)
          × ((j : K) → find hasher equalor t j ≡ find_chain equalor j ps)
    insert_all-create slots_for n ps pos room =
        let (t, run, finds) =
          insert_all_finds ps (create slots_for n)
            (unfold create in (omega (arith, length-replicate {A = List (K × V)} (slots_for n) [])))
            (unfold create in (omega arith)) in
        (
          t,
          run,
          λ j. finds j ∙ ap (λ o. or_else o (find_chain equalor j ps)) (find-create slots_for n j),
        )
