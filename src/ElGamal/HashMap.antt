-- ===== src/ElGamal/HashMap.antt =====
-- elgamal/utils/hash_map.h. The memory pool is a count of the nodes taken and the number of nodes
-- that it holds; a slot is its chain of nodes, first to last. The hash and the equality are
-- arguments, as in the code. Insertions are taken one at a time.
pub mod Laws
use heu.Base.{
  ℕ, zero, suc, ◌+◌, ◌%◌, ◌≡◌, Bool, List, [], ◌∷◌, Option, none, some, length, get_or, set,
  replicate, ltb, if◌then◌else◌, Result, ok, err, enforce, ◌>>◌,
}
use heu.Base.{Error, hashmap_full, out_of_range}

pub record HashMap (K V : Type 0) : Type 0 where
  pub slots : List (List (K × V))
  pub used : ℕ
  -- mem_pool_.size() / sizeof(Node)
  pub capacity : ℕ

-- The constructor; `slots_for n` is the length n * 1.2 that floating-point arithmetic gives.
unfoldable pub create : {K V : Type 0} → (ℕ → ℕ) → ℕ → HashMap K V
create slots_for slot_count = record {
  slots = replicate (slots_for slot_count) [];
  used = 0;
  capacity = slot_count;
}

-- The loop of the destructor: node `i` of the pool is read for each `i` below `used`.
unfoldable pub destroy_from : ℕ → ℕ → ℕ → Result (Unit {0})
destroy_from zero i capacity = ok tt
destroy_from (suc n) i capacity = do
  enforce (ltb i capacity) out_of_range
  destroy_from n (i + 1) capacity

module _ {K V : Type 0} where
  unfoldable pub destroy : HashMap K V → Result (Unit {0})
  unfolding destroy_from
  destroy m = destroy_from m.used 0 m.capacity

  -- The walk to the last node of a chain.
  unfoldable pub append_node : List (K × V) → K × V → List (K × V)
  append_node [] node = node ∷ []
  append_node (p ∷ ps) node = p ∷ append_node ps node

  -- The walk along a chain up to the first equal key.
  unfoldable pub find_chain : (K → K → Bool) → K → List (K × V) → Option V
  find_chain equalor key [] = none
  find_chain equalor key ((k, v) ∷ ps) = if equalor k key then some v else find_chain equalor key ps

  module _ (hasher : K → ℕ) (equalor : K → K → Bool) where
    abbrev pub slot_index : HashMap K V → K → ℕ
    slot_index m key = hasher key % length m.slots

    -- The count goes up before the pool is checked.
    unfoldable pub insert : HashMap K V → K → V → HashMap K V × Result (Unit {0})
    unfolding append_node
    insert m key value =
        let idx = slot_index m key in
        let taken = record m { used = m.used + 1 } in
        if ltb m.used m.capacity
        then (
          record taken {
            slots = set m.slots idx (append_node (get_or m.slots idx []) (key, value));
          },
          ok tt,
        )
        else (taken, err hashmap_full)

    unfoldable pub find : HashMap K V → K → Option V
    unfolding find_chain
    find m key = find_chain equalor key (get_or m.slots (slot_index m key) [])
