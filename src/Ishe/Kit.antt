-- ===== src/Ishe/Kit.antt =====
-- algorithms/incubator/ishe/he_kit.cc: the generation of the keys and of the vectors of ciphertexts.
use heu.Base.{ℕ, zero, suc, ◌+◌, ◌&&◌, List, [], ◌∷◌, ltb, Result, ok, ◌>>=◌, ◌>>◌, enforce}
use heu.Base.{illegal_input}
use heu.Base.Int.{ℤ, pos, negsuc, ◌*ℤ◌}
use heu.Paillier.BigInts.{BigInts}
use heu.Ishe.Scheme.{SecretKey, PublicParameters, encrypt_impl}

-- What the random sources give: the key, and r and r1 of the encryptions for each vector.
pub record Draws : Type 0 where
  pub p : ℤ
  pub q : ℤ
  pub s : ℤ
  pub capital_l : ℤ
  pub for_addones : ℕ → ℤ × ℤ
  pub for_ones : ℕ → ℤ × ℤ
  pub for_negs : ℕ → ℤ × ℤ

module _ (b : BigInts) where
  -- A loop of InitOnes, from i on.
  unfoldable pub fill_vector :
      PublicParameters → SecretKey → ℤ → (ℕ → ℕ) → (ℕ → ℤ × ℤ) → ℕ → ℕ → Result (List ℤ)
  fill_vector pp sk m degree_of draws i zero = ok []
  fill_vector pp sk m degree_of draws i (suc rounds) = do
    ct ← encrypt_impl b pp sk m (degree_of i) (draws i).0 (draws i).1
    rest ← fill_vector pp sk m degree_of draws (i + 1) rounds
    ok (ct.n ∷ rest)

  unfoldable pub gen_pk_sk : ℕ → ℕ → ℕ → Draws → Result (SecretKey × PublicParameters)
  unfolding fill_vector
  gen_pk_sk k_0 k_r k_m draws = do
    let n = draws.p *ℤ draws.q
    let sk : SecretKey = record { s = draws.s; p = draws.p; capital_l = draws.capital_l }
    let tmp : PublicParameters = record {
      k_0 = k_0;
      k_r = k_r;
      k_m = k_m;
      n = n;
      addones = [];
      ones = [];
      negs = [];
    }
    addones ← fill_vector tmp sk (pos 1) (λ i. i) draws.for_addones 1 100
    ones ← fill_vector tmp sk (pos 1) (λ i. 1) draws.for_ones 1 50
    negs ← fill_vector tmp sk (negsuc 0) (λ i. 0) draws.for_negs 1 20
    ok (
      sk,
      record {
        k_0 = k_0;
        k_r = k_r;
        k_m = k_m;
        n = n;
        addones = addones;
        ones = ones;
        negs = negs;
      },
    )

  unfoldable pub create_params : ℕ → ℕ → ℕ → Draws → Result (SecretKey × PublicParameters)
  unfolding gen_pk_sk
  create_params k_0 k_r k_m draws = do
    enforce (ltb k_r k_0 && ltb k_m k_r && ltb 0 k_m) illegal_input
    gen_pk_sk k_0 k_r k_m draws
