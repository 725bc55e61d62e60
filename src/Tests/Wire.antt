-- ===== src/Tests/Wire.antt =====
-- The framing, the port ranges and the variants at concrete inputs. Headers are four bytes, the
-- lowest first, and a message is its own encoding.
use qcp.Prelude.{
  ℕ, ◌+◌, ◌*◌, ◌/◌, ◌%◌, ◌^◌, ◌≤◌, ◌<◌, ◌≡◌, refl, ap, false, ◌&&◌, Option, none, some, List, [],
  ◌∷◌, ◌++◌, ltb, if◌then◌else◌, length, ok, err, arith, min, leb,
}
use qcp.Prelude.Text.{codes, parse_uint, split_once}
use qcp.Protocol.Framing.{
  Bytes, Codec, MessageHeader, header_size, from_reader, from_reader_framed, to_writer_framed,
  send_all, RoundTrips, HeaderLaws,
}
use qcp.Protocol.Framing.RoundTrip.{from_reader_framed-to_writer_framed}
use qcp.Protocol.Framing.Limits.{from_reader_framed_bounds}
use qcp.Protocol.Compat.{
  cmsg_smsg_2, level, feature_level, to_u16, supports, process_compatibility_levels,
  our_compatibility_numeric,
}
use qcp.Protocol.Compat.Laws.{agreed_level}
use qcp.Util.PortRange.{PortRange, IsValid, combine, display, from_str}
use qcp.Util.PortRange.Combine.{allows, combine_sound, combine_complete}
use qcp.Util.PortRange.Text.{from_str-display}

abbrev encode : MessageHeader → Bytes
encode h = h.size % 256 ∷ h.size / 256 % 256 ∷ h.size / 65536 % 256 ∷ h.size / 16777216 % 256 ∷ []

abbrev decode : Bytes → Option MessageHeader
decode (a ∷ b ∷ c ∷ d ∷ []) = some (record { size = a + 256 * b + 65536 * c + 16777216 * d })
decode _ = none

abbrev headers : Codec MessageHeader
headers = record {
  to_vec = λ h. if ltb h.size (2 ^ 32) then some (encode h) else none;
  from_slice = decode;
}

abbrev plain : Codec Bytes
plain = record { to_vec = some; from_slice = some }

bytes_of :
    (n : ℕ)
    → n < 2 ^ 32
    → n % 256 + 256 * (n / 256 % 256) + 65536 * (n / 65536 % 256) + 16777216 * (n / 16777216 % 256)
      ≡ n
bytes_of n h = omega arith

headers_laws : HeaderLaws headers
headers_laws = record {
  encode = encode;
  to_vec_lem = λ h small. ground arith;
  length-encode = λ h. refl;
  from_slice-encode = λ h small. ap (λ n. some (record { size = n })) (bytes_of h.size small);
}

plain_trips : RoundTrips plain
plain_trips = record { from_slice-to_vec = λ m vec h. cc }

-- A message of two bytes behind another.
abbrev framed : Bytes
framed = 9 ∷ 2 ∷ 0 ∷ 0 ∷ 0 ∷ 7 ∷ 8 ∷ []

written : to_writer_framed headers plain 16 (7 ∷ 8 ∷ []) (9 ∷ []) ≡ ok framed
unfolding to_writer_framed
written = refl

from_reader_framed-to_writer_framed_example :
    (frm : Bytes) × (framed ≡ 9 ∷ frm)
    × ((rest : Bytes) → from_reader_framed headers plain 16 (frm ++ rest) ≡ ok (7 ∷ 8 ∷ [], rest))
from_reader_framed-to_writer_framed_example =
    from_reader_framed-to_writer_framed headers plain headers_laws plain_trips 16 (omega arith)
      (7 ∷ 8 ∷ []) (9 ∷ []) framed written

abbrev two_messages : List Bytes
two_messages = (5 ∷ []) ∷ (7 ∷ 8 ∷ []) ∷ []

abbrev two_frames : Bytes
two_frames = 1 ∷ 0 ∷ 0 ∷ 0 ∷ 5 ∷ 2 ∷ 0 ∷ 0 ∷ 0 ∷ 7 ∷ 8 ∷ []

both_sent : send_all headers plain 16 two_messages [] ≡ ok two_frames
unfolding send_all
both_sent = refl

one_read : from_reader_framed headers plain 16 two_frames ≡ ok (5 ∷ [], 2 ∷ 0 ∷ 0 ∷ 0 ∷ 7 ∷ 8 ∷ [])
unfolding from_reader_framed
one_read = refl

from_reader_framed_bounds_example : (size : ℕ) × (size ≤ 16) × (length two_frames ≡ 4 + size + 6)
from_reader_framed_bounds_example =
    from_reader_framed_bounds headers plain 16 two_frames (5 ∷ []) (2 ∷ 0 ∷ 0 ∷ 0 ∷ 7 ∷ 8 ∷ [])
      one_read

long_header :
    from_reader headers header_size (17 ∷ 0 ∷ 0 ∷ 0 ∷ 1 ∷ []) ≡ ok (record { size = 17 }, 1 ∷ [])
unfolding from_reader
long_header = refl

agreed_level_example :
    (process_compatibility_levels 3 ≡ level (min our_compatibility_numeric 3))
    × (supports (process_compatibility_levels 3) cmsg_smsg_2
        ≡ leb (to_u16 (feature_level cmsg_smsg_2)) 3)
agreed_level_example = agreed_level 3 cmsg_smsg_2

abbrev low : PortRange
low = record { begin = 1000; end = 2000 }

abbrev high : PortRange
high = record { begin = 1500; end = 3000 }

abbrev apart : PortRange
apart = record { begin = 4000; end = 5000 }

low-IsValid : IsValid low
low-IsValid = record {
  increasing = omega arith;
  bounded = omega arith;
  any_port = λ h. absurd (omega arith);
}

high-IsValid : IsValid high
high-IsValid = record {
  increasing = omega arith;
  bounded = omega arith;
  any_port = λ h. absurd (omega arith);
}

apart-IsValid : IsValid apart
apart-IsValid = record {
  increasing = omega arith;
  bounded = omega arith;
  any_port = λ h. absurd (omega arith);
}

solved : combine low high ≡ ok (record { begin = 1500; end = 2000 })
unfolding combine
solved = refl

combine_sound_example :
    IsValid (record { begin = 1500; end = 2000 })
    × (allows (record { begin = 1500; end = 2000 }) 1700 ≡ (allows low 1700 && allows high 1700))
combine_sound_example =
    combine_sound low high low-IsValid high-IsValid (record { begin = 1500; end = 2000 }) 1700
      solved (omega arith)

unsolved : combine low apart ≡ err (apart, low)
unfolding combine
unsolved = refl

combine_complete_example : (allows low 1700 && allows apart 1700) ≡ false
combine_complete_example =
    combine_complete low apart low-IsValid apart-IsValid (apart, low) unsolved 1700 (omega arith)

from_str-display_example : from_str (display low) ≡ ok low
from_str-display_example = from_str-display low low-IsValid

parsed : from_str (codes "1000-2000") ≡ ok low
unfolding from_str parse_uint split_once
parsed = refl
