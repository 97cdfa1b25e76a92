-- ===== src/Dgk/KeyGenerator.antt =====
-- dgk/key_generator.cc. What the random sources give is a list; an empty one gives nothing more. The
-- test of primes is that of the big integers.
pub mod Orders
pub mod Filled
pub mod Correct
use heu.Base.{
  ℕ, ◌+◌, ◌%◌, Bool, not, ◌&&◌, ◌||◌, List, [], ◌∷◌, leb, ◌==◌, if◌then◌else◌, Result, ok, err,
  ◌>>=◌, ◌>>◌, enforce,
}
use heu.Base.{out_of_draws, illegal_input}
use heu.Base.Int.{ℤ, pos, ◌+ℤ◌, ◌-ℤ◌, ◌*ℤ◌}
use heu.Paillier.BigInts.{BigInts}
use heu.Paillier.Scheme.{same_int}
use heu.Dgk.Keys.{PublicKey, SecretKey, init_secret}

-- What the random sources give: vp, vq, and the numbers for wp, wq, gp and gq.
pub record Draws : Type 0 where
  pub vp : ℤ
  pub vq : ℤ
  pub wps : List ℤ
  pub wqs : List ℤ
  pub gps : List ℤ
  pub gqs : List ℤ

module _ (b : BigInts) where
  module _ (is_prime : ℤ → Bool) where
    -- The loop for p = u * vp * wp + 1, where `uv` is u * vp; the even number wp.
    unfoldable pub find_wp : ℤ → ℤ → List ℤ → Result ℤ
    find_wp uv vq [] = err out_of_draws
    find_wp uv vq (draw ∷ draws) =
        let rest = find_wp uv vq draws in
        let gcd = b.gcd draw vq in
        let wp = draw *ℤ pos 2 in
        if not (is_prime (uv *ℤ wp +ℤ pos 1)) || not (same_int gcd (pos 1)) then rest else ok wp

    -- The loop for q = vq * wq + 1.
    unfoldable pub find_wq : ℤ → ℤ → List ℤ → Result ℤ
    find_wq vq vp [] = err out_of_draws
    find_wq vq vp (draw ∷ draws) =
        let rest = find_wq vq vp draws in
        let gcd = b.gcd draw vp in
        let wq = draw *ℤ pos 2 in
        if not (is_prime (vq *ℤ wq +ℤ pos 1)) || not (same_int gcd (pos 1)) then rest else ok wq

  unfoldable pub find_gp : ℤ → ℤ → ℤ → ℤ → List ℤ → Result ℤ
  find_gp p u vp wp [] = err out_of_draws
  find_gp p u vp wp (gp ∷ draws) =
      let rest = find_gp p u vp wp draws in
      if same_int (b.pow_mod gp (u *ℤ vp) p) (pos 1)
        || same_int (b.pow_mod gp (vp *ℤ wp) p) (pos 1)
        || same_int (b.pow_mod gp (wp *ℤ u) p) (pos 1)
      then rest
      else ok gp

  unfoldable pub find_gq : ℤ → ℤ → ℤ → List ℤ → Result ℤ
  find_gq q vq wq [] = err out_of_draws
  find_gq q vq wq (gq ∷ draws) =
      let rest = find_gq q vq wq draws in
      if same_int (b.pow_mod gq vq q) (pos 1) || same_int (b.pow_mod gq wq q) (pos 1)
      then rest
      else ok gq

  -- gn, from its residues gp and gq.
  unfoldable pub join_residues : ℤ → ℤ → ℤ → ℤ → ℤ
  join_residues p q gp gq = let pp = p *ℤ b.inv_mod p q in b.rem (gp +ℤ (gq -ℤ gp) *ℤ pp) (p *ℤ q)

  unfoldable pub fill_keys : ℤ → Draws → ℤ → ℤ → ℤ → ℤ → ℤ → ℤ → SecretKey × PublicKey
  fill_keys u draws wp wq p q gp gq =
      let n = p *ℤ q in
      let g = b.pow_mod (join_residues p q gp gq) (wp *ℤ wq) n in
      let h = b.pow_mod g u n in
      (init_secret b p q draws.vp draws.vq u g, record { n = n; g = g; h = h; u = u })

  -- The generation from the prime u on.
  unfoldable pub generate_from : (ℤ → Bool) → ℤ → Draws → Result (SecretKey × PublicKey)
  generate_from is_prime u draws = do
    wp ← find_wp is_prime (u *ℤ draws.vp) draws.vq draws.wps
    wq ← find_wq is_prime draws.vq draws.vp draws.wqs
    let p = u *ℤ draws.vp *ℤ wp +ℤ pos 1
    let q = draws.vq *ℤ wq +ℤ pos 1
    gp ← find_gp p u draws.vp wp draws.gps
    gq ← find_gq q draws.vq wq draws.gqs
    ok (fill_keys u draws wp wq p q gp gq)

  unfoldable pub generate : (ℤ → Bool) → ℕ → Draws → Result (SecretKey × PublicKey)
  unfolding generate_from
  generate is_prime key_size draws = do
    enforce (key_size % 2 == 0) illegal_input
    enforce (leb 1024 key_size && leb key_size 3072) illegal_input
    generate_from is_prime (pos 65423) draws
