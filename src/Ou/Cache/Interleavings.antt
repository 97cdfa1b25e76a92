-- ===== src/Ou/Cache/Interleavings.antt =====
-- Threads that call GetHrUsingCache at the same time: whatever the order of their sections, each call
-- returns a power of H, and the cache holds a power with its exponent.
use heu.Base.{
  ℕ, ◌+◌, ◌*◌, ◌%◌, ◌^◌, ◌<◌, ◌≤◌, ◌≡◌, refl, sym, ap, ap₂, subst, ◌∙◌, Bool, false, ◌||◌, ◌==◌,
  ltb, leb, if◌then◌else◌, Bool-cases, inl, inr, ◌⊎◌, List, [], ◌∷◌, Option, none, some, arith,
}
use native.Mathlib.Nat.{pow-le-pow_right, mul_comm}
use heu.Base.Int.{ℤ, pos}
use heu.Base.Modular.{pow-add, cong_mul, cong_mod, mod_of_cong}
use heu.Paillier.BigInts.{BigInts, IsBigInts, InSpace, plain}
use heu.Paillier.Keys.Derived.{pos_add}
use heu.Additive.Tables.{Tables, IsTables}
use heu.Ou.Keys.{PublicKey, random_bits_3072, one_less}
use heu.Ou.Cache.{Cache, new_cache, Reading, reset, reuse, read_cache, finish, drawn_bits}

abbrev pub All {ℓ} : {A : Type ℓ} → (A → Type 0) → List A → Type 0
All P [] = Unit
All P (x ∷ xs) = P x × All P xs

abbrev pub update {ℓ} : {A : Type ℓ} → (ℕ → A) → ℕ → A → ℕ → A
update f i v j = if j == i then v else f j

-- The cache, what each thread in a call has seen, and what the calls have returned.
pub record System : Type 0 where
  pub cache : Cache
  pub seen : ℕ → Option Reading
  pub returned : List ℤ

module _ (b : BigInts) (tables : Tables) (pk : PublicKey) where
  abbrev pub after_enter : System → ℕ → System
  after_enter s i = record s { seen = update s.seen i (some (read_cache b tables pk s.cache)) }

  abbrev pub after_leave : System → ℕ → Reading → ℕ → System
  after_leave s i reading e =
      let (cache, hr) = finish b tables pk reading (pos e) in
      record { cache = cache; seen = update s.seen i none; returned = hr ∷ s.returned }

  -- A step of thread i: it enters a call, or leaves one with a number of the bits drawn.
  pub data Step (s : System) : System → Type 0 where
    enter : (i : ℕ) → s.seen i ≡ none → Step s (after_enter s i)
    leave :
        (i : ℕ) (reading : Reading) (e : ℕ)
        → s.seen i ≡ some reading
        → e < 2 ^ drawn_bits b tables pk reading
        → Step s (after_leave s i reading e)

  pub data Reach : System → Type 0 where
    start : Reach (record { cache = new_cache; seen = λ i. none; returned = [] })
    next : {s t : System} → Reach s → Step s t → Reach t

-- hr is the power h^e in the space of modulus n.
pub record IsPower (b : BigInts) (n h e : ℕ) (hr : ℤ) : Type 0 where
  pub in_space : InSpace n hr
  pub is_power : plain b n hr ≡ h ^ e % n

-- hr is some power of h.
abbrev pub IsMask : BigInts → ℕ → ℕ → ℤ → Type 0
IsMask b n h hr = (e : ℕ) × IsPower b n h e hr

module _ (b : BigInts) (laws : IsBigInts b) (tables : Tables) (table_laws : IsTables b tables)
    (n h : ℕ) (some_n : 0 < n) (pk : PublicKey) (n_is : pk.n ≡ pos n) (h_is : pk.capital_h ≡ pos h)
    (zero_bits : b.bit_count (pos 0) ≡ 0) where
  -- What is stored is a power of H with its exponent.
  abbrev HoldsPower : ℤ → ℤ → Type 0
  HoldsPower hr r = (e : ℕ) × (r ≡ pos e) × IsPower b n h e hr

  abbrev IsTrusted : Reading → Type 0
  IsTrusted reset = Unit
  IsTrusted (reuse hr r) = HoldsPower hr r

  abbrev IsSeen : Option Reading → Type 0
  IsSeen none = Unit
  IsSeen (some reading) = IsTrusted reading

  pub record IsConsistent (s : System) : Type 0 where
    pub cached : (s.cache.cache_r ≡ pos 0) ⊎ HoldsPower s.cache.cache_hr s.cache.cache_r
    pub known : (i : ℕ) → IsSeen (s.seen i)
    pub masks : All (IsMask b n h) s.returned

  drawn_bits-le : (reading : Reading) → drawn_bits b tables pk reading ≤ 128
  unfolding drawn_bits
  drawn_bits-le reset = omega arith
  drawn_bits-le (reuse hr r) = ground arith

  table-IsPower :
      (e : ℕ) → e < 2 ^ 128 → IsPower b n h e (tables.power pk.n pk.capital_h 128 (pos e))
  table-IsPower e small =
      rw (n_is, h_is)
        (record {
          in_space = table_laws.power_in h 128 e n some_n small;
          is_power = table_laws.power_is h 128 e n some_n small;
        })

  read_cache-IsTrusted :
      (c : Cache)
      → (c.cache_r ≡ pos 0) ⊎ HoldsPower c.cache_hr c.cache_r
      → IsTrusted (read_cache b tables pk c)
  unfolding read_cache
  read_cache-IsTrusted c stored = elim (Bool-cases (old c)) [
    | inl t ↦ rw t tt
    | inr t ↦ rw t (used stored t)
  ]
    where
      old : Cache → Bool
      old c =
          ltb (b.bit_count c.cache_r) random_bits_3072
          || leb (one_less (b.bit_count pk.n)) (b.bit_count c.cache_r)

      used :
          {c : Cache}
          → (c.cache_r ≡ pos 0) ⊎ HoldsPower c.cache_hr c.cache_r
          → old c ≡ false
          → HoldsPower c.cache_hr c.cache_r
      used (inl zero) t = absurd (ground (arith, zero_bits, ap b.bit_count zero))
      used (inr held) t = held

  draw_small : (reading : Reading) (e : ℕ) → e < 2 ^ drawn_bits b tables pk reading → e < 2 ^ 128
  draw_small reading e small =
      let more = pow-le-pow_right {n = 2} (omega arith) (drawn_bits-le reading) in omega arith

  product-IsPower :
      (k e : ℕ) (x y : ℤ)
      → IsPower b n h k x
      → IsPower b n h e y
      → IsPower b n h (e + k) (b.space_mul pk.n x y)
  product-IsPower k e x y f g = rw n_is (record {
    in_space = laws.space_mul_in x y n f.in_space g.in_space;
    is_power =
        laws.space_mul_is x y n f.in_space g.in_space
        ∙ (ap₂ (λ (u v : ℕ). u * v % n) f.is_power g.is_power
            ∙ (mod_of_cong some_n (cong_mul (cong_mod n (h ^ k)) (cong_mod n (h ^ e)))
                ∙ ap (λ (u : ℕ). u % n) (mul_comm (h ^ k) (h ^ e) ∙ sym (pow-add h e k))));
  })

  finish-HoldsPower :
      (reading : Reading) (e : ℕ)
      → IsTrusted reading
      → e < 2 ^ drawn_bits b tables pk reading
      → let (cache, hr) = finish b tables pk reading (pos e) in
        HoldsPower cache.cache_hr cache.cache_r × (cache.cache_hr ≡ hr)
  unfolding finish drawn_bits
  finish-HoldsPower reset e r small = ((e, refl, table-IsPower e small), refl)
  finish-HoldsPower (reuse hr r) e (k, is, power) small =
      let short : e < 2 ^ 128 = draw_small (reuse hr r) e small in
      let delta = table-IsPower e short in
      ((e + k, rw is (pos_add e k), product-IsPower k e hr _ power delta), refl)

  update-IsSeen :
      (f : ℕ → Option Reading) (i : ℕ) (v : Option Reading)
      → ((j : ℕ) → IsSeen (f j))
      → IsSeen v
      → (j : ℕ) → IsSeen (update f i v j)
  update-IsSeen f i v old new j = elim (Bool-cases (j == i)) [
    | inl t ↦ rw t new
    | inr t ↦ rw t (old j)
  ]

  -- What a call returns is what it stores.
  finish-IsMask :
      (reading : Reading) (e : ℕ)
      → IsTrusted reading
      → e < 2 ^ drawn_bits b tables pk reading
      → IsMask b n h (finish b tables pk reading (pos e)).1
  finish-IsMask reading e read small =
      let ((k, is, power), same) = finish-HoldsPower reading e read small in
      (k, subst (λ (x : ℤ). IsPower b n h k x) same power)

  Step-IsConsistent : {s t : System} → Step b tables pk s t → IsConsistent s → IsConsistent t
  Step-IsConsistent {s} (enter i free) c = record {
    cached = c.cached;
    known =
        update-IsSeen s.seen i (some (read_cache b tables pk s.cache)) c.known
          (read_cache-IsTrusted s.cache c.cached);
    masks = c.masks;
  }
  Step-IsConsistent {s} (leave i reading e is small) c =
      let read : IsTrusted reading = subst IsSeen is (c.known i) in
      record {
        cached = inr (finish-HoldsPower reading e read small).0;
        known = update-IsSeen s.seen i none c.known tt;
        masks = (finish-IsMask reading e read small, c.masks);
      }

  Reach-IsConsistent : {s : System} → Reach b tables pk s → IsConsistent s
  Reach-IsConsistent start = record { cached = inl refl; known = λ i. tt; masks = tt }
  Reach-IsConsistent (next r st) = Step-IsConsistent st (Reach-IsConsistent r)

  -- For big integers and tables as documented: whatever threads call the cached draw, and in
  -- whatever order their sections under the lock take place, each call has returned a power of H,
  -- and a cache that is not the initial one holds a power of H together with its exponent.
  pub Reach-IsMask :
      {s : System}
      → Reach b tables pk s
      → All (IsMask b n h) s.returned
        × ((s.cache.cache_r ≡ pos 0)
            ⊎ (e : ℕ) × (s.cache.cache_r ≡ pos e) × IsPower b n h e s.cache.cache_hr)
  Reach-IsMask r = let c = Reach-IsConsistent r in (c.masks, c.cached)
