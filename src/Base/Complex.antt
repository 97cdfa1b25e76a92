-- ===== src/Base/Complex.antt =====
-- Products of complex numbers whose parts are 64-bit words.
use heu.Base.Words.{u64, add64, sub64, mul64, mul-mod_left, mul-mod_right}
use Prim.Native.Nat.{ℕ, ◌+◌, ◌-◌, ◌*◌, ◌%◌}
use mathlib.Core.Path.{◌≡◌, ap}
use native.Mathlib.Omega.{arith}

-- On remainders, the operations are those of the polynomials under them.
add64-mod : (x y : ℕ) → add64 (x % u64) (y % u64) ≡ (x + y) % u64
unfolding add64
add64-mod x y = omega arith

sub64-mod : (x y : ℕ) → sub64 (x % u64) (y % u64) ≡ (x + (u64 - 1) * y) % u64
unfolding sub64
sub64-mod x y = omega arith

mul64-mod_left : (x y : ℕ) → mul64 (x % u64) y ≡ x * y % u64
unfolding mul64
mul64-mod_left x y = mul-mod_left x y u64

mul64-mod_right : (x y : ℕ) → mul64 x (y % u64) ≡ x * y % u64
unfolding mul64
mul64-mod_right x y = mul-mod_right x y u64

abbrev pub re : ℕ → ℕ → ℕ → ℕ → ℕ
re ar ai br bi = sub64 (mul64 ar br) (mul64 ai bi)

abbrev pub im : ℕ → ℕ → ℕ → ℕ → ℕ
im ar ai br bi = add64 (mul64 ar bi) (mul64 br ai)

re-mod : (ar ai br bi : ℕ) → re ar ai br bi ≡ (ar * br + (u64 - 1) * (ai * bi)) % u64
unfolding mul64
re-mod ar ai br bi = sub64-mod (ar * br) (ai * bi)

im-mod : (ar ai br bi : ℕ) → im ar ai br bi ≡ (ar * bi + br * ai) % u64
unfolding mul64
im-mod ar ai br bi = add64-mod (ar * bi) (br * ai)

-- The product of complex words is associative, part by part.
pub re_assoc :
    (ar ai br bi cr ci : ℕ)
    → re (re ar ai br bi) (im ar ai br bi) cr ci ≡ re ar ai (re br bi cr ci) (im br bi cr ci)
re_assoc ar ai br bi cr ci =
    rw (re-mod ar ai br bi, im-mod ar ai br bi, re-mod br bi cr ci, im-mod br bi cr ci)
      (rw
        (
          mul64-mod_left (ar * br + (u64 - 1) * (ai * bi)) cr,
          mul64-mod_left (ar * bi + br * ai) ci,
          mul64-mod_right ar (br * cr + (u64 - 1) * (bi * ci)),
          mul64-mod_right ai (br * ci + cr * bi),
          sub64-mod,
          sub64-mod,
        )
        (ap (λ t. t % u64) (same (u64 - 1))))
  where
    same :
        (n : ℕ)
        → (ar * br + n * (ai * bi)) * cr + n * ((ar * bi + br * ai) * ci)
          ≡ ar * (br * cr + n * (bi * ci)) + n * (ai * (br * ci + cr * bi))
    same n = omega arith

pub im_assoc :
    (ar ai br bi cr ci : ℕ)
    → im (re ar ai br bi) (im ar ai br bi) cr ci ≡ im ar ai (re br bi cr ci) (im br bi cr ci)
im_assoc ar ai br bi cr ci =
    rw (re-mod ar ai br bi, im-mod ar ai br bi, re-mod br bi cr ci, im-mod br bi cr ci)
      (rw
        (
          mul64-mod_left (ar * br + (u64 - 1) * (ai * bi)) ci,
          mul64-mod_right cr (ar * bi + br * ai),
          mul64-mod_right ar (br * ci + cr * bi),
          mul64-mod_left (br * cr + (u64 - 1) * (bi * ci)) ai,
          add64-mod,
          add64-mod,
        )
        (ap (λ t. t % u64) (same (u64 - 1))))
  where
    same :
        (n : ℕ)
        → (ar * br + n * (ai * bi)) * ci + cr * (ar * bi + br * ai)
          ≡ ar * (br * ci + cr * bi) + (br * cr + n * (bi * ci)) * ai
    same n = omega arith
