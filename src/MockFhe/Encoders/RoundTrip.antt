-- ===== src/MockFhe/Encoders/RoundTrip.antt =====
-- Decoding after encoding.
use heu.Base.{
  ℕ, zero, suc, ◌+◌, ◌*◌, ◌-◌, ◌/◌, ◌%◌, ◌^◌, ◌<◌, ◌≤◌, ◌≡◌, refl, sym, ap, ◌∙◌, List, [], ◌∷◌,
  ◌++◌, map, length, get_or, set, replicate, drop, length-map, length-append, length-drop,
  length-replicate, length-set, get_or-set_self, get_or-set_ne, ext_get_or, le→leb, ==_refl, ok,
  true, leb, ◌>>=◌, for_range, for_range_inv, arith,
}
use native.Mathlib.Decide.{ℕ_discrete}
use native.Mathlib.Nat.{mul-div_cancel}
use mathlib.Core.List.{append-nil}
use heu.Base.Words.{mul64, zero-mul64}
use heu.MockFhe.Copy.{write_at, write_front, length-write_at}
use heu.MockFhe.Objects.{Double, MockObj}
use heu.MockFhe.Encoders.{batch_encode, batch_decode, ckks_encode, ckks_decode}

drop-replicate : (n m : ℕ) (x : ℕ) → drop n (replicate m x) ≡ replicate (m - n) x
drop-replicate zero m x = let e : m ≡ m - 0 = omega arith in ap (λ k. replicate k x) e
drop-replicate (suc n) zero x = let e : 0 ≡ 0 - suc n = omega arith in ap (λ k. replicate k x) e
drop-replicate (suc n) (suc m) x =
    drop-replicate n m x
    ∙ (let e : m - n ≡ suc m - suc n = omega arith in ap (λ k. replicate k x) e)

-- A message with zeros up to `n` entries.
abbrev pub padded : ℕ → List ℕ → List ℕ
padded n m = m ++ replicate (n - length m) 0

pub write_padded : (n : ℕ) (m : List ℕ) → length m ≤ n → write_at 0 m (replicate n 0) ≡ padded n m
write_padded n m h =
    write_front m (replicate n 0) (omega (arith, length-replicate {A = ℕ} n 0))
    ∙ ap (◌++◌ m) (drop-replicate (length m) n 0)

pub length-padded : (n : ℕ) (m : List ℕ) → length m ≤ n → length (padded n m) ≡ n
length-padded n m h =
    omega (
      arith,
      length-append m (replicate (n - length m) 0),
      length-replicate {A = ℕ} (n - length m) 0,
    )

write_whole : (src dst : List ℕ) → length src ≡ length dst → write_at 0 src dst ≡ src
write_whole src dst h =
    write_front src dst (omega arith)
    ∙ append_rest (drop (length src) dst) (omega (arith, length-drop (length src) dst))
  where
    append_rest : (r : List ℕ) → length r ≡ 0 → src ++ r ≡ src
    append_rest [] e = append-nil src
    append_rest (x ∷ r) e = absurd (omega arith)

module _ {F : Type 0} (d : Double F) where
  pub batch_encode-padded :
      (n : ℕ) (m : List ℕ)
      → length m ≤ n
      → batch_encode d n m ≡ ok (record { array = padded n m; scale = d.one })
  unfolding batch_encode
  batch_encode-padded n m h =
      rw (le→leb (length m) n h)
        (ap (λ s. ok (record { array = s; scale = d.one })) (write_padded n m h))

  pub batch_decode_full :
      (n : ℕ) (pt : MockObj F) (out : List ℕ)
      → length pt.array ≡ n
      → length out ≡ n
      → batch_decode n pt out ≡ ok pt.array
  unfolding batch_decode
  batch_decode_full n pt out h k =
      let all : leb n n ≡ true = le→leb n n (omega arith) in
      rw (h, k, all) (ap ok (write_whole pt.array out (h ∙ sym k)))

  -- A message that the batch encoder accepts is decoded, into an output of the degree's length, as
  -- the message with zeros behind it.
  pub batch_decode-batch_encode :
      (n : ℕ) (m out : List ℕ)
      → length m ≤ n
      → length out ≡ n
      → (batch_encode d n m >>= λ pt. batch_decode n pt out) ≡ ok (padded n m)
  batch_decode-batch_encode n m out h k = rw (batch_encode-padded n m h) (
      batch_decode_full n (record { array = padded n m; scale = d.one }) out (length-padded n m h)
        k)

get_or-replicate : (n i : ℕ) → get_or {A = ℕ} (replicate n 0) i 0 ≡ 0
get_or-replicate zero i = refl
get_or-replicate (suc n) zero = refl
get_or-replicate (suc n) (suc i) = get_or-replicate n i

-- Entry by entry, zeros included, where `f` keeps 0.
get_or-map_padded :
    (f : ℕ → ℕ) (m : List ℕ) (n i : ℕ)
    → f 0 ≡ 0
    → get_or (map f m ++ replicate n 0) i 0 ≡ f (get_or m i 0)
get_or-map_padded f [] n i z = get_or-replicate n i ∙ sym z
get_or-map_padded f (x ∷ m) n zero z = refl
get_or-map_padded f (x ∷ m) n (suc i) z = get_or-map_padded f m n i z

-- The loop that fills a vector entry by entry.
fill :
    (n : ℕ) (f : ℕ → ℕ) (out : List ℕ)
    → length out ≡ n
    → (length (for_range n 0 (λ i s. set s i (f i)) out) ≡ n)
      × ((j : ℕ) → j < n → get_or (for_range n 0 (λ i s. set s i (f i)) out) j 0 ≡ f j)
fill n f out size =
    for_range_inv (λ i s. (length s ≡ n) × ((j : ℕ) → j < i → get_or s j 0 ≡ f j))
      (λ i s. set s i (f i)) n 0 n (omega arith) step out (size, λ j h. absurd (omega arith))
  where
    step :
        (i : ℕ) (s : List ℕ)
        → 0 ≤ i
        → i < n
        → (length s ≡ n) × ((j : ℕ) → j < i → get_or s j 0 ≡ f j)
        → (length (set s i (f i)) ≡ n) × ((j : ℕ) → j < i + 1 → get_or (set s i (f i)) j 0 ≡ f j)
    step i s lo hi (len, old) = (
      length-set s i (f i) ∙ len,
      λ j h. elim (ℕ_discrete i j) [
        | yes e ↦ rw (← e) (get_or-set_self s i (f i) 0 (omega arith))
        | no ne ↦ get_or-set_ne s i j (f i) 0 ne ∙ old j (omega arith)
      ],
    )

map_same : (m : List ℕ) → map (λ x. x) m ≡ m
map_same [] = refl
map_same (x ∷ m) = ap (◌∷◌ x) (map_same m)

-- The binary64 format of IEEE 754 holds every integer below 2^53 exactly, and its division is rounded
-- correctly: for two such numbers, the conversion to int64_t cuts the quotient off at the integer part.
pub record IsDouble {F : Type 0} (d : Double F) : Type 0 where
  pub truncates : (x s : ℕ) → x < 2 ^ 53 → 0 < s → s < 2 ^ 53 → d.quotient x (d.of_int64 s) ≡ x / s

-- A product that a double holds exactly does not wrap around, and is divided again without a remainder.
quotient-mul64 :
    {F : Type 0} (d : Double F)
    → IsDouble d
    → (scale x : ℕ) → 0 < scale
    → scale < 2 ^ 53
    → x * scale < 2 ^ 53
    → d.quotient (mul64 x scale) (d.of_int64 scale) ≡ x
unfolding mul64
quotient-mul64 d laws scale x some_scale small fits =
    let whole : x * scale % 2 ^ 64 ≡ x * scale = omega arith in
    rw (whole, laws.truncates (x * scale) scale fits some_scale small) (mul-div_cancel x some_scale)

module _ {F : Type 0} (d : Double F) (laws : IsDouble d) where
  -- For a double that holds and divides integers below 2^53 as documented, a scale between 1 and
  -- 2^53 - 1 and numbers from 0 on whose products with the scale stay below 2^53: a message that the
  -- CKKS encoder accepts is decoded, into an output of `half_degree` entries, as the message with
  -- zeros behind it.
  pub ckks_decode-ckks_encode :
      (half scale : ℕ) (m out : List ℕ)
      → 0 < scale
      → scale < 2 ^ 53
      → ((i : ℕ) → get_or m i 0 * scale < 2 ^ 53)
      → length m ≤ half
      → length out ≡ half
      → (ckks_encode d half scale m >>= λ pt. ckks_decode d half pt out) ≡ ok (padded half m)
  unfolding ckks_encode ckks_decode
  ckks_decode-ckks_encode half scale m out some_scale small fits h k =
      simp (le→leb (length m) half h, le→leb half (length out) (omega arith), size, ==_refl)
        (ap ok (
          ext_get_or _ _ 0 (filled.0 ∙ sym (length-padded half m h)) λ j lt.
            let below : j < half = omega (arith, filled.0) in
            filled.1 j below
            ∙ (ap (λ t. d.quotient t (d.of_int64 scale)) (entry j) ∙ (exact j ∙ sym (plain j)))))
    where
      exact : (j : ℕ) → d.quotient (mul64 (get_or m j 0) scale) (d.of_int64 scale) ≡ get_or m j 0
      exact j = quotient-mul64 d laws scale (get_or m j 0) some_scale small (fits j)

      scaled : ℕ → ℕ
      scaled x = mul64 x scale

      array : List ℕ
      array = write_at 0 (map scaled m) (replicate (half * 2) 0)

      room : length (map scaled m) ≤ half * 2
      room = omega (arith, length-map scaled m)

      size : length array ≡ half * 2
      size =
          length-write_at 0 (map scaled m) (replicate (half * 2) 0) ∙ length-replicate (half * 2) 0

      entry : (j : ℕ) → get_or array j 0 ≡ scaled (get_or m j 0)
      entry j =
          ap (λ s. get_or s j 0) (write_padded (half * 2) (map scaled m) room)
          ∙ get_or-map_padded scaled m (half * 2 - length (map scaled m)) j (zero-mul64 scale)

      plain : (j : ℕ) → get_or (padded half m) j 0 ≡ get_or m j 0
      plain j =
          ap (λ l. get_or (l ++ replicate (half - length m) 0) j 0) (sym (map_same m))
          ∙ get_or-map_padded (λ x. x) m (half - length m) j refl

      filled :
          (length (
              for_range half 0
                (λ i s. set s i (d.quotient (get_or array i 0) (d.of_int64 scale)))
                out)
            ≡ half)
          × ((j : ℕ)
              → j < half
              → get_or
                  (for_range half 0
                    (λ i s. set s i (d.quotient (get_or array i 0) (d.of_int64 scale)))
                    out)
                  j
                  0
                ≡ d.quotient (get_or array j 0) (d.of_int64 scale))
      filled = fill half (λ i. d.quotient (get_or array i 0) (d.of_int64 scale)) out k
