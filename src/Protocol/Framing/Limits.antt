-- ===== src/Protocol/Framing/Limits.antt =====
-- A reader takes no more than the limit allows.
use qcp.Prelude.{
  ℕ, zero, suc, ◌+◌, ◌≤◌, ◌<◌, ◌≡◌, refl, [], ◌∷◌, length, take, drop, ok, err, >>=-eq-ok, arith,
  lt→leb_false, ap,
}
use qcp.Protocol.Framing.{
  Bytes, Codec, MessageHeader, header_size, Error, or_error, too_long, check_size, read_exact,
  from_reader, from_reader_framed,
}

length-take : (n : ℕ) (xs : Bytes) → n ≤ length xs → length (take n xs) ≡ n
length-take zero xs h = refl
length-take (suc n) [] h = absurd (omega arith)
length-take (suc n) (x ∷ xs) h = ap suc (length-take n xs (omega arith))

length-drop : (n : ℕ) (xs : Bytes) → n ≤ length xs → length (drop n xs) + n ≡ length xs
length-drop zero xs h = omega arith
length-drop (suc n) [] h = absurd (omega arith)
length-drop (suc n) (x ∷ xs) h = omega (arith, length-drop n xs (omega arith))

read_exact-eq-ok :
    (n : ℕ) (reader : Bytes) (r : Bytes × Bytes)
    → read_exact n reader ≡ ok r
    → length r.1 + n ≡ length reader
unfolding read_exact
read_exact-eq-ok n reader r h = ground (arith, length-drop n reader)

from_reader-eq-ok :
    {M : Type 0} (codec : Codec M) (n : ℕ) (reader : Bytes) (r : M × Bytes)
    → from_reader codec n reader ≡ ok r
    → length r.1 + n ≡ length reader
unfolding from_reader
from_reader-eq-ok codec n reader r h =
    let (buffer, e, h1) = >>=-eq-ok (read_exact n reader) _ h in
    let (m, e2, h2) = >>=-eq-ok (or_error Error.decoding (codec.from_slice buffer.0)) _ h1 in
    ground (arith, read_exact-eq-ok n reader buffer e)

check_size-le : (limit size : ℕ) (u : Unit {0}) → check_size limit size ≡ ok u → size ≤ limit
unfolding check_size
check_size-le limit size u h = ground arith

module _ {M : Type 0} (header_codec : Codec MessageHeader) (codec : Codec M) (limit : ℕ) where
  -- A message that is read takes up its header and a payload within the limit, and no more.
  pub from_reader_framed_bounds :
      (reader : Bytes) (m : M) (rest : Bytes)
      → from_reader_framed header_codec codec limit reader ≡ ok (m, rest)
      → (size : ℕ) × (size ≤ limit) × (length reader ≡ header_size + size + length rest)
  unfolding from_reader_framed
  from_reader_framed_bounds reader m rest h =
      let (header, e, h1) = >>=-eq-ok (from_reader header_codec header_size reader) _ h in
      let (u, small, h2) = >>=-eq-ok (check_size limit header.0.size) _ h1 in
      (
        header.0.size,
        check_size-le limit header.0.size u small,
        omega (
          arith,
          from_reader-eq-ok header_codec header_size reader header e,
          from_reader-eq-ok codec header.0.size header.1 (m, rest) h2,
        ),
      )

  -- A header that announces more than the limit is refused before any of the payload is read,
  -- whatever follows it.
  pub from_reader_framed_too_long :
      (reader : Bytes) (h : MessageHeader) (rest : Bytes)
      → from_reader header_codec header_size reader ≡ ok (h, rest)
      → limit < h.size
      → from_reader_framed header_codec codec limit reader ≡ err (too_long h.size)
  unfolding from_reader_framed
  from_reader_framed_too_long reader h rest e long = rw (e, lt→leb_false h.size limit long)
