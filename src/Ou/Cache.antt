-- ===== src/Ou/Cache.antt =====
-- ou/encryptor.cc: the powers H^r that hide plaintexts, drawn afresh or by way of the shared cache,
-- whose two sections under the lock are the steps of a thread.
pub mod Interleavings
use heu.Base.{ℕ, Bool, ◌||◌, ltb, leb, if◌then◌else◌}
use heu.Base.Int.{ℤ, pos, ◌+ℤ◌}
use heu.Paillier.BigInts.{BigInts}
use heu.Additive.Tables.{Tables}
use heu.Ou.Keys.{PublicKey, random_bits_1024, random_bits_2048, random_bits_3072, one_less}

-- What hr_mutex_ guards.
pub record Cache : Type 0 where
  pub cache_hr : ℤ
  pub cache_r : ℤ

-- The cache of the constructor.
abbrev pub new_cache : Cache
new_cache = record { cache_hr = pos 0; cache_r = pos 0 }

-- What a thread has seen of the cache: it must make a new power, or it may use this one.
pub data Reading : Type 0 where
  reset : Reading
  reuse : ℤ → ℤ → Reading

module _ (b : BigInts) (tables : Tables) (pk : PublicKey) where
  -- random_bits_, from the constructor.
  unfoldable pub random_bits : ℕ
  random_bits =
      if leb 2560 (b.bit_count pk.n)
      then random_bits_3072
      else if leb 1536 (b.bit_count pk.n)
      then random_bits_2048
      else random_bits_1024

  -- GetHr without the cache.
  unfoldable pub get_hr : ℤ → ℤ
  get_hr r = tables.power pk.n pk.capital_h random_bits_3072 r

  -- The first section under the lock.
  unfoldable pub read_cache : Cache → Reading
  read_cache c =
      let r_bits = b.bit_count c.cache_r in
      if ltb r_bits random_bits_3072 || leb (one_less (b.bit_count pk.n)) r_bits
      then reset
      else reuse c.cache_hr c.cache_r

  -- The rest of the call, from the number that is drawn: the cache that it stores under the lock,
  -- and what it returns.
  unfoldable pub finish : Reading → ℤ → Cache × ℤ
  finish reset r =
      let new_hr = tables.power pk.n pk.capital_h random_bits_3072 r in
      (record { cache_hr = new_hr; cache_r = r }, new_hr)
  finish (reuse cache_hr cache_r) delta_r =
      let delta_hr = tables.power pk.n pk.capital_h random_bits_3072 delta_r in
      let new_hr = b.space_mul pk.n cache_hr delta_hr in
      (record { cache_hr = new_hr; cache_r = delta_r +ℤ cache_r }, new_hr)

  -- The bits of the number that the rest of the call draws.
  unfoldable pub drawn_bits : Reading → ℕ
  unfolding random_bits
  drawn_bits reset = random_bits_3072
  drawn_bits (reuse cache_hr cache_r) = random_bits
