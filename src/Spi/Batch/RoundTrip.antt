-- ===== src/Spi/Batch/RoundTrip.antt =====
-- Decoding after encoding, for messages over several plaintexts.
use heu.Base.{
  ℕ, zero, suc, ◌+◌, ◌-◌, ◌*◌, ◌/◌, ◌<◌, ◌≤◌, ◌≡◌, refl, sym, ap, ◌∙◌, inl, inr, true, List, [],
  ◌∷◌, ◌++◌, length, take, drop, leb, lt→ltb, le→leb, leb→le, length-append, length-take,
  length-drop, take-append-drop, take-append, drop-append, take_all, drop_end, drop-drop,
  Bool-cases, Result, ok, arith,
}
use mathlib.Core.List.{append_assoc, append-nil}
use native.Mathlib.Nat.{div-add-mod', mod-lt}
use heu.Numpy.Matrix.{tabulate}
use heu.Spi.Batch.{
  Codec, Item, single, many, as_span, encode_chunk, call_encode_t, decode_loop, call_decode_t,
}

-- What a scheme promises of one plaintext: a message that fits is encoded, and decoded into a span of
-- the size of the slots it stands at the front.
pub record IsCodec {P V : Type 0} (c : Codec P V) : Type 0 where
  pub has_slots : 0 < c.slot_count
  pub encodes :
      (m : List V) → 0 < length m → length m ≤ c.slot_count → (p : P) × (c.encode_t m ≡ ok p)
  pub decodes :
      (m out : List V) (p : P)
      → c.encode_t m ≡ ok p
      → length out ≡ c.slot_count
      → (pad : List V) × (c.decode_t p out ≡ ok (m ++ pad)) × (length (m ++ pad) ≡ c.slot_count)

module _ {P V : Type 0} (c : Codec P V) (w : IsCodec c) where
  -- The plaintexts encode the message piece by piece.
  abbrev Encodes : List V → List P → Type 0
  Encodes m [] = m ≡ []
  Encodes m (p ∷ ps) =
      (0 < length m) × (c.encode_t (take c.slot_count m) ≡ ok p) × Encodes (drop c.slot_count m) ps

  empty : (xs : List V) → length xs ≡ 0 → xs ≡ []
  empty [] h = refl
  empty (x ∷ xs) h = absurd (omega arith)

  -- A piece that is not the last one fills its slots.
  no_pad :
      (m pad : List V)
      → 0 < length (drop c.slot_count m)
      → length (take c.slot_count m ++ pad) ≡ c.slot_count
      → pad ≡ []
  no_pad m pad more size = empty pad (
      omega (
        arith,
        length-append (take c.slot_count m) pad,
        length-take c.slot_count m,
        length-drop c.slot_count m,
      ))

  -- The loop from plaintext `i` on keeps what is in front and puts the message behind it.
  abbrev Leaves : List P → ℕ → List V → List V → List V → Type 0
  Leaves ps i m front rest =
      (tail : List V) × (decode_loop c ps i (front ++ rest) ≡ ok (front ++ (m ++ tail)))
      × (length (m ++ tail) ≡ length rest)

  decode_loop_lem :
      (ps : List P) (i : ℕ) (m front rest : List V)
      → Encodes m ps
      → length front ≡ c.slot_count * i
      → length ps * c.slot_count ≤ length rest
      → Leaves ps i m front rest
  unfolding decode_loop
  decode_loop_lem [] i m front rest e h room =
      (rest, ap (λ t. ok (front ++ (t ++ rest))) (sym e), ap (λ t. length (t ++ rest)) e)
  decode_loop_lem (p ∷ ps) i m front rest (some_m, run, more) h room =
      let n : ℕ = c.slot_count in
      let room' : n ≤ length rest = omega (arith, room) in
      let size : length (take n rest) ≡ n = omega (arith, length-take n rest) in
      let (pad, dec, full) = w.decodes (take n m) (take n rest) p run size in
      let behind : drop (n * i) (front ++ rest) ≡ rest =
        ap (λ k. drop k (front ++ rest)) (sym h) ∙ drop-append front rest in
      let ahead : take (n * i) (front ++ rest) ≡ front =
        ap (λ k. take k (front ++ rest)) (sym h) ∙ take-append front rest in
      rw (behind, dec, ahead)
        (next ps (decode_loop_lem ps (i + 1)) more (omega (arith, room)) pad full)
    where
      whole : take c.slot_count m ++ drop c.slot_count m ≡ m
      whole = take-append-drop c.slot_count m

      fits : c.slot_count ≤ length rest
      fits = omega (arith, room)

      next :
          (qs : List P)
          → ((m front rest : List V)
              → Encodes m qs
              → length front ≡ c.slot_count * (i + 1)
              → length qs * c.slot_count ≤ length rest
              → Leaves qs (i + 1) m front rest)
          → Encodes (drop c.slot_count m) qs
          → length qs * c.slot_count + c.slot_count ≤ length rest
          → (pad : List V) → length (take c.slot_count m ++ pad) ≡ c.slot_count
          → (tail : List V) × (decode_loop c qs
                (i + 1)
                (front ++ ((take c.slot_count m ++ pad) ++ drop c.slot_count rest))
              ≡ ok (front ++ (m ++ tail)))
            × (length (m ++ tail) ≡ length rest)
      next [] ih e room pad full =
          let t : List V = take c.slot_count m in
          let r : List V = drop c.slot_count rest in
          let same : t ≡ m = sym (append-nil t) ∙ (ap (◌++◌ t) (sym e) ∙ whole) in
          let move : (t ++ pad) ++ r ≡ m ++ (pad ++ r) =
            append_assoc t pad r ∙ ap (λ x. x ++ (pad ++ r)) same in
          (
            pad ++ r,
            ap (λ x. ok (front ++ x)) move,
            ap length (sym move)
                ∙ omega
                    (arith, length-append (t ++ pad) r, length-drop c.slot_count rest, fits, full),
          )
      next (q ∷ qs) ih e room pad full =
          let t : List V = take c.slot_count m in
          let d : List V = drop c.slot_count m in
          let r : List V = drop c.slot_count rest in
          let none_left : pad ≡ [] = no_pad m pad e.0 full in
          let size : length t ≡ c.slot_count =
            ap length (sym (append-nil t)) ∙ (ap (λ x. length (t ++ x)) (sym none_left) ∙ full) in
          let place : c.slot_count * (i + 1) ≡ c.slot_count * i + c.slot_count = omega arith in
          let (tail, run', len) =
            ih d (front ++ t) r e (omega (arith, length-append front t, h, size, place))
              (omega (arith, length-drop c.slot_count rest, room)) in
          let start : front ++ ((t ++ pad) ++ r) ≡ (front ++ t) ++ r =
            ap (λ x. front ++ ((t ++ x) ++ r)) none_left
            ∙ (ap (λ x. front ++ (x ++ r)) (append-nil t) ∙ sym (append_assoc front t r)) in
          let end : (front ++ t) ++ (d ++ tail) ≡ front ++ (m ++ tail) =
            append_assoc front t (d ++ tail)
            ∙ ap (◌++◌ front) (sym (append_assoc t d tail) ∙ ap (λ x. x ++ tail) whole) in
          let back : m ++ tail ≡ t ++ (d ++ tail) =
            ap (λ x. x ++ tail) (sym whole) ∙ append_assoc t d tail in
          (
            tail,
            ap (decode_loop c (q ∷ qs) (i + 1)) start ∙ (run' ∙ ap ok end),
            ap length back
                ∙ omega (
                  arith,
                  length-append t (d ++ tail),
                  len,
                  length-drop c.slot_count rest,
                  size,
                  fits,
                ),
          )

  tabulate_step :
      (f : ℕ → Result P) (n i : ℕ) (p : P) (ps : List P)
      → f i ≡ ok p
      → tabulate n (i + 1) f ≡ ok ps
      → tabulate (suc n) i f ≡ ok (p ∷ ps)
  unfolding tabulate
  tabulate_step f n i p ps h k = rw (h, k) refl

  tabulate-Encodes :
      (m : List V) (n i : ℕ) (rest : List V)
      → drop (c.slot_count * i) m ≡ rest
      → length rest ≤ n * c.slot_count
      → n * c.slot_count < length rest + c.slot_count
      → (ps : List P) × (tabulate n i (encode_chunk c m) ≡ ok ps)
        × Encodes rest ps
        × (length ps ≡ n)
  unfolding tabulate
  tabulate-Encodes m zero i rest e upper lower = ([], refl, empty rest (omega arith), refl)
  tabulate-Encodes m (suc n) i rest e upper lower =
      let (p, run) =
        w.encodes (take c.slot_count rest)
          (omega (arith, length-take c.slot_count rest, w.has_slots))
          (omega (arith, length-take c.slot_count rest)) in
      let place : c.slot_count * (i + 1) ≡ c.slot_count * i + c.slot_count = omega arith in
      let e' : drop (c.slot_count * (i + 1)) m ≡ drop c.slot_count rest =
        ap (λ k. drop k m) place
        ∙ (sym (drop-drop (c.slot_count * i) c.slot_count m) ∙ ap (drop c.slot_count) e) in
      let (ps, runs, encoded, size) =
        tabulate-Encodes m n (i + 1) (drop c.slot_count rest) e'
          (omega (arith, length-drop c.slot_count rest))
          (omega (arith, length-drop c.slot_count rest, w.has_slots)) in
      let first : encode_chunk c m i ≡ ok p = ap (λ x. c.encode_t (take c.slot_count x)) e ∙ run in
      (
        p ∷ ps,
        tabulate_step (encode_chunk c m) n i p ps first runs,
        (omega arith, run, encoded),
        ap suc size,
      )

  rounded_up : (k n : ℕ) → 0 < n → (k ≤ (k + n - 1) / n * n) × ((k + n - 1) / n * n ≤ k + n - 1)
  rounded_up k n h = (
    omega (arith, div-add-mod' (k + n - 1) n, mod-lt (k + n - 1) h),
    omega (arith, div-add-mod' (k + n - 1) n),
  )

  -- The item that a message gives, and what its plaintexts encode.
  encode_lem :
      (m : List V)
      → 0 < length m
      → (item : Item P) × (call_encode_t c m ≡ ok item)
        × (item.is_plaintext ≡ true)
        × Encodes m (as_span item.content)
        × (length (as_span item.content) * c.slot_count ≤ length m + c.slot_count - 1)
  unfolding call_encode_t
  encode_lem m h = elim (Bool-cases (leb (length m) c.slot_count)) [
    | inl short ↦
        let le : length m ≤ c.slot_count = leb→le _ _ short in
        let (p, run) = w.encodes m h le in
        (
          record { is_plaintext = true; content = single p },
          rw (lt→ltb 0 _ h, short, run) refl,
          refl,
          (h, ap c.encode_t (take_all c.slot_count m le) ∙ run, drop_end m c.slot_count le),
          omega arith,
        )
    | inr long ↦
        let n : ℕ = (length m + c.slot_count - 1) / c.slot_count in
        let (lo, hi) = rounded_up (length m) c.slot_count w.has_slots in
        let zero_place : c.slot_count * 0 ≡ 0 = omega arith in
        let (ps, run, encoded, size) =
          tabulate-Encodes m n 0 m (ap (λ k. drop k m) zero_place) lo (omega (arith, hi, h)) in
        (
          record { is_plaintext = true; content = many ps },
          rw (lt→ltb 0 _ h, long, run) refl,
          refl,
          encoded,
          rw size hi,
        )
  ]

  -- Where the scheme keeps its promise, a message that is not empty is encoded, however long it is,
  -- and decoding the item into an output with room for it rounded up to whole plaintexts
  -- succeeds with the message in front, at the output's length.
  pub call_decode_t-call_encode_t :
      (m out : List V)
      → 0 < length m
      → length m + c.slot_count - 1 ≤ length out
      → (item : Item P) × (tail : List V) × (call_encode_t c m ≡ ok item)
        × (call_decode_t c item out ≡ ok (m ++ tail))
        × (length (m ++ tail) ≡ length out)
  unfolding call_decode_t
  call_decode_t-call_encode_t m out h room =
      let (item, run, plain, encoded, size) = encode_lem m h in
      let fits : length (as_span item.content) * c.slot_count ≤ length out =
        omega (arith, size, room) in
      let (tail, loop, len) =
        decode_loop_lem (as_span item.content) 0 m [] out encoded (omega arith) fits in
      (item, tail, run, rw (plain, le→leb _ _ fits) loop, len)
