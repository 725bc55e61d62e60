-- ===== src/Protocol/Framing/RoundTrip.antt =====
-- Framed messages are read back, one after the other.
use qcp.Prelude.{
  ℕ, zero, suc, ◌^◌, ◌≤◌, ◌<◌, ◌≡◌, refl, none, some, List, [], ◌∷◌, ◌++◌, append_assoc, length,
  leb, le→leb, leb→le, length-append, take-append, drop-append, Result, ok, err, ◌>>=◌, >>=-eq-ok,
  arith, append-nil, Bool-cases, Option-cases, inl, inr, false,
}
use mathlib.Core.Path.{subst}
use qcp.Protocol.Framing.{
  Bytes, Codec, MessageHeader, header_size, Error, too_long, encoding, read_exact, from_reader,
  from_reader_framed, to_writer_framed, send_all, RoundTrips, HeaderLaws,
}

read_exact-append : (xs ys : Bytes) → read_exact (length xs) (xs ++ ys) ≡ ok (xs, ys)
unfolding read_exact
read_exact-append xs ys = rw (
  le→leb (length xs) (length (xs ++ ys)) (omega (arith, length-append {0} xs ys)),
  take-append xs ys,
  drop-append xs ys,
)

from_reader-append :
    {M : Type 0} (codec : Codec M) (m : M) (xs ys : Bytes)
    → codec.from_slice xs ≡ some m
    → from_reader codec (length xs) (xs ++ ys) ≡ ok (m, ys)
unfolding from_reader
from_reader-append codec m xs ys h = rw (read_exact-append xs ys, h)

from_reader_header :
    (header_codec : Codec MessageHeader) (laws : HeaderLaws header_codec) (h : MessageHeader)
    (ys : Bytes)
    → h.size < 2 ^ 32
    → from_reader header_codec header_size (laws.encode h ++ ys) ≡ ok (h, ys)
from_reader_header header_codec laws h ys small =
    subst (λ n. from_reader header_codec n (laws.encode h ++ ys) ≡ ok (h, ys))
      (laws.length-encode h)
      (from_reader-append header_codec h (laws.encode h) ys (laws.from_slice-encode h small))

module _ {M : Type 0} (header_codec : Codec MessageHeader) (codec : Codec M)
    (laws : HeaderLaws header_codec) (trips : RoundTrips codec) (limit : ℕ)
    (small : limit < 2 ^ 32) where
  -- The frame of a message.
  frame : Bytes → Bytes
  frame vec = laws.encode (record { size = length vec }) ++ vec

  write_frame :
      (m : M) (w vec : Bytes)
      → codec.to_vec m ≡ some vec
      → length vec ≤ limit
      → to_writer_framed header_codec codec limit m w ≡ ok (w ++ frame vec)
  unfolding to_writer_framed frame
  write_frame m w vec e fits = rw (
    e,
    le→leb (length vec) limit fits,
    laws.to_vec_lem (record { size = length vec }) (omega arith),
    append_assoc,
  )

  write_too_long :
      (m : M) (w vec : Bytes)
      → codec.to_vec m ≡ some vec
      → leb (length vec) limit ≡ false
      → to_writer_framed header_codec codec limit m w ≡ err (too_long (length vec))
  unfolding to_writer_framed
  write_too_long m w vec e long = rw (e, long)

  write_unencoded :
      (m : M) (w : Bytes)
      → codec.to_vec m ≡ none
      → to_writer_framed header_codec codec limit m w ≡ err encoding
  unfolding to_writer_framed
  write_unencoded m w e = rw e

  -- A successful write appends the frame of an encoding within the limit, and nothing else.
  to_writer_framed-frame :
      (m : M) (w w' : Bytes)
      → to_writer_framed header_codec codec limit m w ≡ ok w'
      → (vec : Bytes) × (codec.to_vec m ≡ some vec) × (length vec ≤ limit) × (w' ≡ w ++ frame vec)
  to_writer_framed-frame m w w' h = elim (Option-cases (codec.to_vec m)) [
    | inl e ↦ cc (write_unencoded m w e)
    | inr (vec, e) ↦ elim (Bool-cases (leb (length vec) limit)) [
      | inl fits ↦
          let within = leb→le (length vec) limit fits in
          (vec, e, within, cc (write_frame m w vec e within))
      | inr long ↦ cc (write_too_long m w vec e long)
    ]
  ]

  read_frame :
      (m : M) (vec rest : Bytes)
      → codec.to_vec m ≡ some vec
      → length vec ≤ limit
      → from_reader_framed header_codec codec limit (frame vec ++ rest) ≡ ok (m, rest)
  unfolding from_reader_framed frame
  read_frame m vec rest e fits =
      let h : MessageHeader = record { size = length vec } in
      rw (
        append_assoc,
        from_reader_header header_codec laws h (vec ++ rest) (omega arith),
        le→leb (length vec) limit fits,
        from_reader-append codec m vec rest (trips.from_slice-to_vec m vec e),
      )

  -- Whatever the writer accepts, the reader reads back, and leaves exactly what follows: the frame
  -- that is appended delimits itself.
  pub from_reader_framed-to_writer_framed :
      (m : M) (w w' : Bytes)
      → to_writer_framed header_codec codec limit m w ≡ ok w'
      → (frm : Bytes) × (w' ≡ w ++ frm)
        × ((rest : Bytes)
            → from_reader_framed header_codec codec limit (frm ++ rest) ≡ ok (m, rest))
  from_reader_framed-to_writer_framed m w w' h =
      let (vec, e, fits, same) = to_writer_framed-frame m w w' h in
      (frame vec, same, λ rest. read_frame m vec rest e fits)

  -- As many reads as there are messages.
  pub recv_all : ℕ → Bytes → Result Error (List M × Bytes)
  recv_all zero reader = ok ([], reader)
  recv_all (suc n) reader = do
    first ← from_reader_framed header_codec codec limit reader
    more ← recv_all n first.1
    ok (first.0 ∷ more.0, more.1)

  send_all-append :
      (ms : List M) (w w' : Bytes)
      → send_all header_codec codec limit ms w ≡ ok w'
      → (sent : Bytes) × (w' ≡ w ++ sent)
        × ((rest : Bytes) → recv_all (length ms) (sent ++ rest) ≡ ok (ms, rest))
  unfolding send_all recv_all
  send_all-append [] w w' h = ([], cc (append-nil w), λ rest. refl)
  send_all-append (m ∷ ms) w w' h =
      let (w1, first, later) = >>=-eq-ok (to_writer_framed header_codec codec limit m w) _ h in
      let (frm, same, reads) = from_reader_framed-to_writer_framed m w w1 first in
      let (sent, same', reads') = send_all-append ms w1 w' later in
      (
        frm ++ sent,
        rw (same', same) (append_assoc w frm sent),
        λ rest. rw (append_assoc, reads, reads'),
      )

  -- A sequence of messages that was sent into an empty stream is received in its order, and the
  -- stream is then at its end.
  pub recv_all-send_all :
      (ms : List M) (w : Bytes)
      → send_all header_codec codec limit ms [] ≡ ok w
      → recv_all (length ms) w ≡ ok (ms, [])
  recv_all-send_all ms w h =
      let (sent, same, reads) = send_all-append ms [] w h in rw (same, ← append-nil sent) (reads [])
