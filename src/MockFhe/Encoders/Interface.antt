-- ===== src/MockFhe/Encoders/Interface.antt =====
-- The batch encoder of the mock as an implementation of the batch encoders' interface.
use heu.Base.{
  ℕ, ◌<◌, ◌≤◌, ◌≡◌, sym, ap, ◌∙◌, List, length, replicate, ◌-◌, leb→le, ok, enforce-eq-ok,
  >>=-eq-ok, ok-injective,
}
use heu.Spi.Batch.{Codec}
use heu.Spi.Batch.RoundTrip.{IsCodec}
use heu.MockFhe.Objects.{Double, MockObj}
use heu.MockFhe.Encoders.{batch_encode, batch_decode}
use heu.MockFhe.Encoders.RoundTrip.{padded, length-padded, batch_encode-padded, batch_decode_full}

module _ {F : Type 0} (d : Double F) (n : ℕ) where
  unfoldable pub batch_codec : Codec (MockObj F) ℕ
  batch_codec = record {
    slot_count = n;
    encode_t = λ message. batch_encode d n message;
    decode_t = λ pt out. batch_decode n pt out;
  }

  encode_fits : (m : List ℕ) (p : MockObj F) → batch_encode d n m ≡ ok p → length m ≤ n
  unfolding batch_encode
  encode_fits m p h = leb→le (length m) n (enforce-eq-ok _ _ (>>=-eq-ok _ _ h).1)

  -- With slots, the batch encoder of the mock keeps the promise of the interface.
  pub batch_codec-IsCodec : 0 < n → IsCodec batch_codec
  unfolding batch_codec
  batch_codec-IsCodec h = record {
    has_slots = h;
    encodes = λ m some_m fits.
        (record { array = padded n m; scale = d.one }, batch_encode-padded d n m fits);
    decodes = λ m out p run size.
        let fits : length m ≤ n = encode_fits m p run in
        let same : record { array = padded n m; scale = d.one } ≡ p =
          ok-injective _ p (sym (batch_encode-padded d n m fits) ∙ run) in
        (
          replicate (n - length m) 0,
          ap (λ q. batch_decode n q out) (sym same)
              ∙ batch_decode_full d n (record { array = padded n m; scale = d.one }) out
                  (length-padded n m fits) size,
          length-padded n m fits,
        );
  }
