-- ===== src/Ishe/Numbers.antt =====
-- The arithmetic behind ishe: which numbers encrypt m with the degree d.
use heu.Base.{ℕ, zero, suc, ◌+◌, ◌*◌, ◌^◌, ◌<◌, ◌≤◌, ◌≡◌, ap, arith}
use native.Mathlib.Nat.{pow-zero, pow-suc, mul-le-mul_left, mul-le-mul_right}
use heu.Base.Int.{ℤ, pos, ◌+ℤ◌, ◌*ℤ◌}
use heu.Base.Int.Residue.{residue, residue-add, residue-mul}
use heu.Base.Modular.{Cong, cong_of_eq, cong_sym, cong_trans, cong_add, cong_mul, cong_mod, pow-add}
use heu.Ishe.Scheme.{power}

-- c stands for a number that is m modulo l and at most the bound.
pub record Encodes (p s l : ℕ) (m : ℤ) (d bound c : ℕ) : Type 0 where
  pub noisy : ℕ
  pub shape : Cong p c (s ^ d * noisy)
  pub message : Cong l noisy (residue l m)
  pub below : noisy ≤ bound

module _ (p s l : ℕ) (some_l : 0 < l) where
  abbrev E : ℤ → ℕ → ℕ → ℕ → Type 0
  E = Encodes p s l

  pub Encodes-same : (m : ℤ) (d f c e : ℕ) → Cong p c e → E m d f c → E m d f e
  Encodes-same m d f c e h x = record {
    noisy = x.noisy;
    shape = cong_trans (cong_sym h) x.shape;
    message = x.message;
    below = x.below;
  }

  pub Encodes-add : (m k : ℤ) (d f g c e : ℕ) → E m d f c → E k d g e → E (m +ℤ k) d (f + g) (c + e)
  Encodes-add m k d f g c e x y = record {
    noisy = x.noisy + y.noisy;
    shape = cong_trans (cong_add x.shape y.shape) (cong_of_eq p (omega arith));
    message = cong_trans (cong_add x.message y.message) (cong_sym (residue-add l some_l m k));
    below = omega (arith, x.below, y.below);
  }

  mul_le : (a b c d : ℕ) → a ≤ c → b ≤ d → a * b ≤ c * d
  mul_le a b c d h k = omega (arith, mul-le-mul_right b h, mul-le-mul_left c k)

  pub Encodes-mul :
      (m k : ℤ) (d i f g c e : ℕ) → E m d f c → E k i g e → E (m *ℤ k) (d + i) (f * g) (c * e)
  Encodes-mul m k d i f g c e x y = record {
    noisy = x.noisy * y.noisy;
    shape =
        cong_trans (cong_mul x.shape y.shape)
          (cong_of_eq p (omega (arith, ap (λ (t : ℕ). t * (x.noisy * y.noisy)) (pow-add s d i))));
    message = cong_trans (cong_mul x.message y.message) (cong_sym (residue-mul l some_l m k));
    below = mul_le _ _ _ _ x.below y.below;
  }

  -- A number itself.
  pub Encodes-plain : (k : ℕ) → E (pos k) 0 k k
  Encodes-plain k = record {
    noisy = k;
    shape = cong_of_eq p (omega (arith, ap (λ (t : ℕ). t * k) (pow-zero s)));
    message = cong_sym (cong_mod l k);
    below = omega arith;
  }

  pub Encodes-power : (m : ℤ) (d f c k : ℕ) → E m d f c → E (power m k) (d * k) (f ^ k) (c ^ k)
  unfolding power
  Encodes-power m d f c zero x = record {
    noisy = 1;
    shape = cong_of_eq p (
        omega
          (arith, pow-zero c, pow-zero s, ap (λ (t : ℕ). s ^ t) {x = d * 0} {y = 0} (omega arith)));
    message = cong_sym (cong_mod l 1);
    below = omega (arith, pow-zero f);
  }
  Encodes-power m d f c (suc k) x =
      let more : d * suc k ≡ d * k + d = omega arith in
      rw (pow-suc c k, pow-suc f k, more)
        (Encodes-mul (power m k) m (d * k) d (f ^ k) f (c ^ k) c (Encodes-power m d f c k x) x)
