-- ===== src/Util/PortRange.antt =====
-- qcp/src/util/port_range.rs: a range of port numbers, its text form, and the resolution of two
-- requests for ports. A `u16` is a number; what bounds it is the parser.
pub mod Text
pub mod Combine
use qcp.Prelude.{
  ℕ, ◌-◌, ◌^◌, ◌≤◌, ◌≡◌, min, max, Bool, ◌&&◌, not, Option, none, some, [], ◌∷◌, ◌++◌, ltb, leb,
  ◌==◌, if◌then◌else◌, Result, ok, err, ensure, ◌>>◌, ◌>>=◌,
}
use qcp.Prelude.Text.{Str, split_once, format_uint, parse_uint}

pub record PortRange : Type 0 where
  pub begin : ℕ
  pub end : ℕ

abbrev pub u16_max : ℕ
u16_max = 2 ^ 16 - 1

abbrev pub u64_max : ℕ
u64_max = 2 ^ 64 - 1

-- The error of `from_str`, with what its message shows.
pub data ParseError : Type 0 where
  unsigned : ℕ → ParseError
  unparsable : Str → ParseError
  not_increasing : Str → ParseError
  zero_in_range : Str → ParseError

unfoldable pub display : PortRange → Str
display r =
    if r.begin == r.end
    then format_uint r.begin
    else format_uint r.begin ++ b'-' ∷ format_uint r.end

-- The two sides of the hyphen, once parsed.
from_parts : Str → Option ℕ → Option ℕ → Result ParseError PortRange
from_parts s none b = err (unparsable s)
from_parts s (some aa) none = err (unparsable s)
from_parts s (some aa) (some bb) =
    if ltb bb aa
    then err (not_increasing s)
    else if aa == 0 && not (bb == 0)
    then err (zero_in_range s)
    else ok (record { begin = aa; end = bb })

from_range : Str → Option (Str × Str) → Result ParseError PortRange
unfolding from_parts
from_range s none = err (unparsable s)
from_range s (some (a, b)) = from_parts s (parse_uint u16_max a) (parse_uint u16_max b)

-- A number above `u16` is reported as a number.
from_number : Str → Option ℕ → Option ℕ → Result ParseError PortRange
unfolding from_range
from_number s (some n) big = ok (record { begin = n; end = n })
from_number s none (some n) = err (unsigned n)
from_number s none none = from_range s (split_once b'-' s)

unfoldable pub from_str : Str → Result ParseError PortRange
unfolding from_number
from_str s = from_number s (parse_uint u16_max s) (parse_uint u64_max s)

unfoldable pub is_default : PortRange → Bool
is_default r = r.begin == 0 && r.begin == r.end

-- The error holds both ranges, as its message does.
unfoldable pub combine : PortRange → PortRange → Result (PortRange × PortRange) PortRange
unfolding is_default
combine self theirs =
    if is_default self
    then ok theirs
    else if is_default theirs
    then ok self
    else let begin = max self.begin theirs.begin in
      let end = min self.end theirs.end in
      do ensure (leb begin end) (theirs, self); ok (record { begin = begin; end = end })

-- The ranges that the parser can return.
pub record IsValid (r : PortRange) : Type 0 where
  pub increasing : r.begin ≤ r.end
  pub bounded : r.end ≤ u16_max
  pub any_port : r.begin ≡ 0 → r.end ≡ 0
