-- ===== src/Paillier/Keys.antt =====
-- paillier_zahlen/public_key.h, public_key.cc, secret_key.h and secret_key.cc. The table of the powers
-- of h_s and the Montgomery space are known by their base and their modulus, which the key holds.
pub mod Derived
pub mod Crt
use heu.Base.{ℕ, ◌≡◌}
use heu.Base.Int.{ℤ, pos, ◌+ℤ◌, ◌-ℤ◌, ◌*ℤ◌}
use heu.Paillier.BigInts.{BigInts}

pub record PublicKey : Type 0 where
  pub n : ℤ
  pub n_square : ℤ
  pub n_half : ℤ
  pub h_s : ℤ
  pub key_size : ℕ

pub record SecretKey : Type 0 where
  pub lambda : ℤ
  pub mu : ℤ
  pub p : ℤ
  pub q : ℤ
  pub p_square : ℤ
  pub q_square : ℤ
  pub n_square : ℤ
  pub q_square_inv_mul_q_square : ℤ
  pub p_inv_mod_q : ℤ
  pub phi_p_square : ℤ
  pub phi_q_square : ℤ
  pub phi_p : ℤ
  pub phi_q : ℤ
  pub hp : ℤ
  pub hq : ℤ

module _ (b : BigInts) where
  unfoldable pub init_public : ℤ → ℤ → PublicKey
  init_public n h_s = record {
    n = n;
    n_square = n *ℤ n;
    n_half = b.shift_right n 1;
    h_s = h_s;
    key_size = b.bit_count n;
  }

  -- hp for p, and hq for q: the inverse of (g^(p - 1) mod p^2 - 1) / p.
  unfoldable pub precompute : ℤ → ℤ → ℤ → ℤ → ℤ
  precompute g p phi_p p_square =
      let power = b.pow_mod g phi_p p_square in
      let quotient = b.div (power -ℤ pos 1) p in b.inv_mod quotient p

  unfoldable pub init_secret : ℤ → ℤ → ℤ → ℤ → SecretKey
  unfolding precompute
  init_secret lambda mu p q =
      let p_square = p *ℤ p in
      let q_square = q *ℤ q in
      let q_square_inv = b.inv_mod q_square p_square in
      let phi_p = p -ℤ pos 1 in
      let phi_q = q -ℤ pos 1 in
      let n = p *ℤ q in
      let g = n +ℤ pos 1 in
      record {
        lambda = lambda;
        mu = mu;
        p = p;
        q = q;
        p_square = p_square;
        q_square = q_square;
        n_square = p_square *ℤ q_square;
        q_square_inv_mul_q_square = q_square_inv *ℤ q_square;
        p_inv_mod_q = b.inv_mod p q;
        phi_p_square = p *ℤ (p -ℤ pos 1);
        phi_q_square = q *ℤ (q -ℤ pos 1);
        phi_p = phi_p;
        phi_q = phi_q;
        hp = precompute g p phi_p p_square;
        hq = precompute g q phi_q q_square;
      }

  -- base^exp mod n^2 from its residues.
  unfoldable pub pow_mod_n_square_crt : SecretKey → ℤ → ℤ → ℤ
  pow_mod_n_square_crt sk base exp =
      let pexp = b.rem exp sk.phi_p_square in
      let qexp = b.rem exp sk.phi_q_square in
      let pbase = b.rem base sk.p_square in
      let qbase = b.rem base sk.q_square in
      let pbase_exp = b.pow_mod pbase pexp sk.p_square in
      let qbase_exp = b.pow_mod qbase qexp sk.q_square in
      b.rem ((pbase_exp -ℤ qbase_exp) *ℤ sk.q_square_inv_mul_q_square +ℤ qbase_exp) sk.n_square
