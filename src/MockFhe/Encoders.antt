-- ===== src/MockFhe/Encoders.antt =====
-- encoders.cc of mock_fhe, for integers: the int64_t and the uint64_t overloads handle the same bit
-- patterns. Those for `double` and `std::complex` throw in the first two encoders; the CKKS encoder
-- rounds them, which is not modelled.
pub mod RoundTrip
pub mod Interface
use heu.Base.{
  ℕ, zero, suc, ◌+◌, ◌*◌, ◌/◌, ◌%◌, Bool, List, [], ◌∷◌, ◌++◌, map, length, get_or, set, replicate,
  ltb, leb, ◌==◌, Result, ok, err, enforce, ◌>>◌, ◌>>=◌, for_range,
}
use heu.Base.{
  Error, illegal_input, illegal_plaintext, no_space, out_of_range, illegal_degree, not_supported,
}
use heu.Base.Words.{mul64}
use heu.MockFhe.Copy.{write_at}
use heu.MockFhe.Objects.{Double, MockObj}

module _ {F : Type 0} (d : Double F) where
  -- PlainEncoder: the value stands in the first entry. With no entries the write is out of range.
  unfoldable pub plain_encode : ℕ → ℕ → Result (MockObj F)
  plain_encode poly_degree message = do
    enforce (ltb 0 poly_degree) out_of_range
    ok (record { array = set (replicate poly_degree 0) 0 message; scale = d.one })

  -- BatchEncoder: the values stand at the front, and zeros behind them.
  unfoldable pub batch_encode : ℕ → List ℕ → Result (MockObj F)
  unfolding write_at
  batch_encode poly_degree message = do
    enforce (leb (length message) poly_degree) illegal_input
    ok (record { array = write_at 0 message (replicate poly_degree 0); scale = d.one })

  unfoldable pub batch_encode_scalar : ℕ → Result (MockObj F)
  batch_encode_scalar message = err not_supported

  -- CkksEncoder: the scaled values stand in the row of the real parts.
  unfoldable pub ckks_encode : ℕ → ℕ → List ℕ → Result (MockObj F)
  unfolding write_at
  ckks_encode half_degree scale message = do
    enforce (leb (length message) half_degree) illegal_input
    ok (record {
      array = write_at 0 (map (λ m. mul64 m scale) message) (replicate (half_degree * 2) 0);
      scale = d.of_int64 scale;
    })

  -- One number fills the row of the real parts; `resize` adds the other row.
  unfoldable pub ckks_encode_scalar : ℕ → ℕ → ℕ → MockObj F
  ckks_encode_scalar half_degree scale message = record {
    array = replicate half_degree (mul64 message scale) ++ replicate half_degree 0;
    scale = d.of_int64 scale;
  }

  unfoldable pub ckks_decode : ℕ → MockObj F → List ℕ → Result (List ℕ)
  ckks_decode half_degree pt out = do
    enforce (leb half_degree (length out)) no_space
    enforce (length pt.array == half_degree * 2) illegal_plaintext
    ok (for_range half_degree 0 (λ i s. set s i (d.quotient (get_or pt.array i 0) pt.scale)) out)

module _ {F : Type 0} where
  unfoldable pub plain_decode : MockObj F → Result ℕ
  plain_decode pt = do enforce (ltb 0 (length pt.array)) illegal_plaintext; ok (get_or pt.array 0 0)

  -- std::copy writes the whole plaintext, whatever room `out` has beyond the degree.
  unfoldable pub batch_decode : ℕ → MockObj F → List ℕ → Result (List ℕ)
  unfolding write_at
  batch_decode poly_degree pt out = do
    enforce (leb poly_degree (length out)) no_space
    enforce (leb (length pt.array) (length out)) out_of_range
    ok (write_at 0 pt.array out)

-- The half degree that the constructor of CkksEncoder sets.
unfoldable pub ckks_half_degree : ℕ → Result ℕ
ckks_half_degree poly_degree = do
  enforce (poly_degree % 2 == 0) illegal_degree
  ok (poly_degree / 2)
