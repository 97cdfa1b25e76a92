-- ===== src/Lib.antt =====
-- Verification of HEU, a library of homomorphic encryption algorithms.
--
-- The program has an interface (heu/spi) with implementations of it (heu/algorithms), an older
-- library of algorithms (heu/library/algorithms) behind a dispatching layer (heu/library/phe) and a
-- layer of encrypted matrices (heu/library/numpy), and Python bindings (heu/pylib).
--
-- The files here, the code each is about, and how they correspond:
-- - Base: lists indexed by native numbers, 64-bit words as bit patterns (a wrap-around is written
--   out), integers, loops, and results whose errors are the checks (YACL_ENFORCE) that fail.
-- - Spi/Schema: heu/spi/he/schema.h and schema.cc, the schemas and their names. Spi/Batch:
--   heu/spi/he/sketches/common/batch_encoder.h, over the encoding of one plaintext as an interface.
--   Spi/Words: word_evaluator.h and helpful_macros.h of the scalar sketches, the operations on items
--   by those on one plaintext or ciphertext.
-- - MockPhe: heu/algorithms/incubator/mock_phe, one implementation of those operations.
-- - MockFhe: heu/algorithms/incubator/mock_fhe. A plaintext or ciphertext is a vector of words and a
--   scale. The `double` of the scale is a type given with its operations (Objects.Double). Evaluator
--   has the construction and the linear operations, Multiply the products and powers (the output of
--   DoMul may be an operand: Multiply.Defs.Alias), Galois the rotations, row swaps and conjugation,
--   Encoders the three encoders for integers, Pipeline the whole way of a message, and Kit the
--   creation of the operators from arguments, with the serializer as an argument. DoPow runs on 64 rounds of fuel, which is enough for
--   each positive int64_t.
-- - ElGamal: heu/library/algorithms/elgamal. HashMap and LookupTable are utils: the hash map (slots
--   as lists of pairs, the pool as a count of its nodes) and the table of small multiples. Scheme is
--   the encryptor, the decryptor and the evaluator, KeyGenerator the keys. The curve is an argument,
--   Group says what is documented of it. The numbers that are drawn are arguments, too. The
--   `std::mutex` and threads are not modelled: insertions are taken one after the other.
-- - Numpy: heu/library/numpy, matrices by columns. Shape and Matrix are shape.h and matrix.h;
--   Elementwise, MatMul and Reduce are the parts of evaluator.cc. The operations on the elements, and
--   the ranges that parallel_reduce hands out, are arguments.
-- - Phe/Schema: heu/library/phe/base/schema.h and schema.cc, the registered algorithms. Which of the
--   optional ones are compiled in is an argument.
-- - Phe/BatchEncoder: heu/library/phe/encoding/batch_encoder.h, for integers of w bits; the shifts of
--   the plaintext are an argument.
-- - Paillier: heu/library/algorithms/paillier_zahlen. Keys, Scheme and KeyGenerator are the code.
--   yacl's big integers and Montgomery spaces are an argument, whose documented behaviour BigInts
--   states; the random numbers are arguments, too, and the loops of the key generator run over the
--   lists of what is drawn. Numbers is the arithmetic modulo n^2, Base/Modular the congruences.
-- - PaillierFloat: heu/library/algorithms/paillier_float, numbers with an exponent: the public key,
--   the codec of internal/codec.cc for integers and the operations of evaluator.cc on ciphertexts
--   (Evaluator). The big integers are an argument.
-- - Ou: heu/library/algorithms/ou, Okamoto and Uchiyama's scheme. Keys, Scheme and KeyGenerator are
--   the code; Cache is the shared cache of powers, whose sections under the lock are the steps of a
--   relation. Additive has what the schemes share: which numbers encrypt what, tables of powers, and
--   computations with the operations of a scheme.
-- - Dgk: heu/library/algorithms/dgk, the scheme of Damgard, Geisler and Kroigaard. Keys, Scheme and
--   KeyGenerator are the code. The prime u, which the code sets to 65423, is an argument of
--   generate_from, as the rest of the generation is.
-- - Ishe: heu/algorithms/incubator/ishe, a symmetric scheme whose ciphertexts carry a degree and are
--   added and multiplied. Scheme is base.h, encryptor.cc, decryptor.cc and evaluator.cc, Kit is
--   he_kit.cc; Circuit has the computations, with the bound on the noise that they have.
-- - Pylib/Slices: heu/pylib/numpy_binding/slice_tool.cc, the indices that a Python object selects.
--   CPython's slice.compute and the conversion of an integer to int64_t are arguments. Each loop over
--   a slice has the distance of its ends as fuel, which is enough for every step other than 0 whose
--   sum with the stop is an ssize_t; beyond that, `start += step` wraps around.
--
-- Not modelled: the vendored GPU library (library/algorithms/seal_gpu) and the adapters of hardware
-- and other libraries; bindings, examples, benchmarks and experiments; msgpack, texts and audits of the
-- schemes modelled, and their arithmetic on floating-point numbers; and, so far, the schemes dj,
-- paillier_ic and mock of the library, ou and paillier_zahlen of heu/algorithms, which repeat those of
-- the library, the sketches other than those above, and the dispatch over schemes of library/phe.
pub mod Base
pub mod Spi
pub mod MockFhe
pub mod ElGamal
pub mod Numpy
pub mod Phe
pub mod Pylib
pub mod Paillier
pub mod PaillierFloat
pub mod Additive
pub mod Ou
pub mod Dgk
pub mod Ishe
pub mod MockPhe
