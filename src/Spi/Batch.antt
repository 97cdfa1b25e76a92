-- ===== src/Spi/Batch.antt =====
-- heu/spi/he/sketches/common/batch_encoder.h: messages of any length over plaintexts with a fixed
-- number of slots. The encoding of one plaintext (`EncodeT`, `DecodeT`) is the interface that a
-- scheme implements; a span is the part of the output that it is handed, written back afterwards.
pub mod RoundTrip
use heu.Base.{
  ℕ, zero, suc, ◌+◌, ◌-◌, ◌*◌, ◌/◌, ◌<◌, ◌≤◌, Bool, true, List, [], ◌∷◌, ◌++◌, length, take, drop,
  ltb, leb, if◌then◌else◌, Result, ok, err, enforce, ◌>>=◌, ◌>>◌,
}
use heu.Base.{Error, content_error, no_space}
use heu.Numpy.Matrix.{tabulate}

pub record Codec (P V : Type 0) : Type 0 where
  pub slot_count : ℕ
  pub encode_t : List V → Result P
  pub decode_t : P → List V → Result (List V)

pub data Content (P : Type 0) : Type 0 where
  single : P → Content P
  many : List P → Content P

pub record Item (P : Type 0) : Type 0 where
  pub is_plaintext : Bool
  pub content : Content P

abbrev pub as_span : {P : Type 0} → Content P → List P
as_span (single p) = p ∷ []
as_span (many ps) = ps

module _ {P V : Type 0} (c : Codec P V) where
  -- The plaintext for the values from position slots * i on.
  abbrev pub encode_chunk : List V → ℕ → Result P
  encode_chunk message i = c.encode_t (take c.slot_count (drop (c.slot_count * i) message))

  unfoldable pub call_encode_t : List V → Result (Item P)
  unfolding tabulate
  call_encode_t message = do
    enforce (ltb 0 (length message)) content_error
    if leb (length message) c.slot_count
        then (do p ← c.encode_t message; ok (record { is_plaintext = true; content = single p }))
        else (do
          ps ←
              tabulate ((length message + c.slot_count - 1) / c.slot_count) 0 (encode_chunk message)
          ok (record { is_plaintext = true; content = many ps }))

  -- DecodeT(in[i], out.subspan(slots * i, slots)) for each plaintext from the `i`-th on.
  unfoldable pub decode_loop : List P → ℕ → List V → Result (List V)
  decode_loop [] i out = ok out
  decode_loop (p ∷ ps) i out = do
    written ← c.decode_t p (take c.slot_count (drop (c.slot_count * i) out))
    decode_loop ps (i + 1) (
        take (c.slot_count * i) out ++ (written ++ drop c.slot_count (drop (c.slot_count * i) out)))

  unfoldable pub call_decode_t : Item P → List V → Result (List V)
  unfolding decode_loop
  call_decode_t item out = do
    enforce item.is_plaintext content_error
    enforce (leb (length (as_span item.content) * c.slot_count) (length out)) no_space
    decode_loop (as_span item.content) 0 out
