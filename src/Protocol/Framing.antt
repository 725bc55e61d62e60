-- ===== src/Protocol/Framing.antt =====
-- qcp/src/protocol/common.rs: each message is sent as a header that holds its size, and its
-- encoding. The BARE encoding is serde_bare's: a `Codec`, and one for the header. A reader is the
-- bytes that are still to come, a writer the bytes written so far; other input and output errors
-- are not modelled.
pub mod RoundTrip
pub mod Limits
use qcp.Prelude.{
  ℕ, ◌^◌, ◌≤◌, ◌<◌, ◌≡◌, Bool, Option, none, some, List, [], ◌∷◌, ◌++◌, ltb, leb, length, take,
  drop, Result, ok, err, ensure, ◌>>=◌, ◌>>◌, if◌then◌else◌,
}

abbrev pub Bytes : Type 0
Bytes = List ℕ

-- `serde_bare::to_vec` and `serde_bare::from_slice` of a message type.
pub record Codec (M : Type 0) : Type 0 where
  pub to_vec : M → Option Bytes
  pub from_slice : Bytes → Option M

pub record MessageHeader : Type 0 where
  pub size : ℕ

-- `MessageHeader::SIZE`
abbrev pub header_size : ℕ
header_size = 4

-- The default `WIRE_ENCODING_LIMIT` of a message type.
abbrev pub default_limit : ℕ
default_limit = 1048576

pub data Error : Type 0 where
  too_long : ℕ → Error
  encoding unexpected_eof decoding : Error

abbrev or_error {ℓ} : {A : Type ℓ} → Error → Option A → Result Error A
or_error e none = err e
or_error e (some a) = ok a

-- `check_size_usize`; `check_size` is its call on a `u32`.
unfoldable pub check_size : ℕ → ℕ → Result Error (Unit {0})
check_size limit size = ensure (leb size limit) (too_long size)

-- `Read::read_exact`: the bytes, and what is left.
unfoldable pub read_exact : ℕ → Bytes → Result Error (Bytes × Bytes)
read_exact n reader =
    if leb n (length reader) then ok (take n reader, drop n reader) else err unexpected_eof

module _ {M : Type 0} (codec : Codec M) where
  unfoldable pub from_reader : ℕ → Bytes → Result Error (M × Bytes)
  unfolding read_exact
  from_reader size reader = do
    buffer ← read_exact size reader
    message ← or_error decoding (codec.from_slice buffer.0)
    ok (message, buffer.1)

module _ {M : Type 0} (header_codec : Codec MessageHeader) (codec : Codec M) (limit : ℕ) where
  -- `from_reader_framed` and `from_reader_async_framed`, which log differently.
  unfoldable pub from_reader_framed : Bytes → Result Error (M × Bytes)
  unfolding from_reader check_size
  from_reader_framed reader = do
    header ← from_reader header_codec header_size reader
    check_size limit header.0.size
    from_reader codec header.0.size header.1

  -- `to_writer_framed` and `to_writer_async_framed`; the size is cast to a `u32` once checked.
  unfoldable pub to_writer_framed : M → Bytes → Result Error Bytes
  unfolding check_size
  to_writer_framed message writer = do
    vec ← or_error encoding (codec.to_vec message)
    check_size limit (length vec)
    header ← or_error encoding (header_codec.to_vec (record { size = length vec }))
    ok ((writer ++ header) ++ vec)

  -- `encoded_size`
  unfoldable pub encoded_size : M → Result Error ℕ
  encoded_size message = do vec ← or_error encoding (codec.to_vec message); ok (length vec)

  -- Messages sent one after the other, and as many reads.
  unfoldable pub send_all : List M → Bytes → Result Error Bytes
  unfolding to_writer_framed
  send_all [] writer = ok writer
  send_all (m ∷ ms) writer = do w ← to_writer_framed m writer; send_all ms w

-- What the encoding promises: what was encoded is decoded from exactly its bytes.
pub record RoundTrips {M : Type 0} (codec : Codec M) : Type 0 where
  pub from_slice-to_vec :
      (m : M) (vec : Bytes) → codec.to_vec m ≡ some vec → codec.from_slice vec ≡ some m

-- Every header whose size fits a `u32` is encoded, in four bytes.
pub record HeaderLaws (codec : Codec MessageHeader) : Type 0 where
  pub encode : MessageHeader → Bytes
  pub to_vec_lem : (h : MessageHeader) → h.size < 2 ^ 32 → codec.to_vec h ≡ some (encode h)
  pub length-encode : (h : MessageHeader) → length (encode h) ≡ header_size
  pub from_slice-encode :
      (h : MessageHeader) → h.size < 2 ^ 32 → codec.from_slice (encode h) ≡ some h
