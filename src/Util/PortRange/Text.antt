-- ===== src/Util/PortRange/Text.antt =====
-- The text form of a port range: `Display` and `FromStr` of qcp/src/util/port_range.rs.
use mathlib.Core.Path.{subst}
use qcp.Prelude.{
  true, false, ℕ, ◌≤◌, ◌<◌, ◌≡◌, refl, ◌≢◌, Option, none, some, ◌∷◌, ◌++◌, arith, ◌==◌, ok,
  Bool-cases, inl, inr,
}
use qcp.Prelude.Text.{
  Str, split_once, split_once-append, split_once-none, format_uint, parse_uint, parse-format_uint,
  parse-format_uint_sound, parse_uint-le, parse_uint_hyphen, format_uint-Lacks, format_uint-IsDigit,
}
use qcp.Util.PortRange.{
  PortRange, u16_max, u64_max, display, from_parts, from_range, from_number, from_str, IsValid,
}

from_parts-IsValid :
    (s : Str) (a b : Option ℕ) {r : PortRange}
    → ((n : ℕ) → b ≡ some n → n ≤ u16_max)
    → from_parts s a b ≡ ok r
    → IsValid r
unfolding from_parts
from_parts-IsValid s none b fits h = cc
from_parts-IsValid s (some aa) none fits h = cc
from_parts-IsValid s (some aa) (some bb) fits h = ground (arith, fits bb refl)

from_range-IsValid :
    (s : Str) (parts : Option (Str × Str)) {r : PortRange} → from_range s parts ≡ ok r → IsValid r
unfolding from_range
from_range-IsValid s none h = cc
from_range-IsValid s (some (a, b)) h =
    from_parts-IsValid s (parse_uint u16_max a) (parse_uint u16_max b)
      (λ n e. parse_uint-le u16_max b e) h

from_number-IsValid :
    (s : Str) (small big : Option ℕ) {r : PortRange}
    → ((n : ℕ) → small ≡ some n → n ≤ u16_max)
    → from_number s small big ≡ ok r
    → IsValid r
unfolding from_number
from_number-IsValid s (some n) big fits h = ground (arith, fits n refl)
from_number-IsValid s none (some n) fits h = cc
from_number-IsValid s none none fits h = from_range-IsValid s (split_once b'-' s) h

-- Whatever text is accepted, the range runs upwards, fits in 16 bits, and has port 0 only alone.
pub from_str-IsValid : (s : Str) (r : PortRange) → from_str s ≡ ok r → IsValid r
unfolding from_str
from_str-IsValid s r h =
    from_number-IsValid s (parse_uint u16_max s) (parse_uint u64_max s)
      (λ n e. parse_uint-le u16_max s e) h

from_str_one : (n : ℕ) → n ≤ u16_max → from_str (format_uint n) ≡ ok (record { begin = n; end = n })
unfolding from_str
from_str_one n h = rw (parse-format_uint u16_max n h, from_number)

from_str_two :
    (a b : ℕ)
    → a < b
    → b ≤ u16_max
    → a ≢ 0
    → from_str (format_uint a ++ b'-' ∷ format_uint b) ≡ ok (record { begin = a; end = b })
unfolding from_str
from_str_two a b less fits pos =
    rw
      (
        parse_uint_hyphen u16_max (format_uint a) (format_uint b) (format_uint-IsDigit a),
        parse_uint_hyphen u64_max (format_uint a) (format_uint b) (format_uint-IsDigit a),
        from_number,
        split_once-append b'-' (format_uint a) (format_uint b)
            (format_uint-Lacks b'-' a (omega arith)),
        from_range,
        parse-format_uint u16_max a (omega arith),
        parse-format_uint u16_max b fits,
      )
      (unfold from_parts in ground arith)

-- Every range that the parser can return is read back from its own text form.
pub from_str-display : (r : PortRange) → IsValid r → from_str (display r) ≡ ok r
unfolding display
from_str-display r v = elim (Bool-cases (r.begin == r.end)) [
  | inl one ↦ rw (one, from_str_one r.begin (ground arith)) (ground arith)
  | inr two ↦ rw (two, from_str_two r.begin r.end (ground arith) v.bounded (ground arith))
]

from_parts_sound :
    (s : Str) (x y : Option ℕ) (a b : ℕ) {r : PortRange}
    → ((n : ℕ) → x ≡ some n → n ≡ a)
    → ((n : ℕ) → y ≡ some n → n ≡ b)
    → from_parts s x y ≡ ok r
    → (r.begin ≡ a) × (r.end ≡ b)
unfolding from_parts
from_parts_sound s none y a b hx hy h = cc
from_parts_sound s (some aa) none a b hx hy h = cc
from_parts_sound s (some aa) (some bb) a b hx hy h = ground (arith, hx aa refl, hy bb refl)

from_number_one :
    (s : Str) (small big : Option ℕ) (a : ℕ) {r : PortRange}
    → split_once b'-' s ≡ none
    → ((n : ℕ) → small ≡ some n → n ≡ a)
    → from_number s small big ≡ ok r
    → (r.begin ≡ a) × (r.end ≡ a)
unfolding from_number from_range
from_number_one s (some n) big a lacks hs h = ground (arith, hs n refl)
from_number_one s none (some n) a lacks hs h = cc
from_number_one s none none a lacks hs h = let k = rw lacks at h in cc

read_one : (n : ℕ) {r : PortRange} → from_str (format_uint n) ≡ ok r → (r.begin ≡ n) × (r.end ≡ n)
unfolding from_str
read_one n h =
    from_number_one (format_uint n) _ _ n
      (split_once-none b'-' (format_uint n) (format_uint-Lacks b'-' n (omega arith)))
      (λ m e. parse-format_uint_sound u16_max n m e) h

read_two :
    (a b : ℕ) {r : PortRange}
    → from_str (format_uint a ++ b'-' ∷ format_uint b) ≡ ok r
    → (r.begin ≡ a) × (r.end ≡ b)
unfolding from_str
read_two a b h =
    let k =
      rw
        (
          parse_uint_hyphen u16_max (format_uint a) (format_uint b) (format_uint-IsDigit a),
          parse_uint_hyphen u64_max (format_uint a) (format_uint b) (format_uint-IsDigit a),
          from_number,
          split_once-append b'-' (format_uint a) (format_uint b)
              (format_uint-Lacks b'-' a (omega arith)),
          from_range,
        )
        at h in
    from_parts_sound _ (parse_uint u16_max (format_uint a)) (parse_uint u16_max (format_uint b)) a b
      (λ m e. parse-format_uint_sound u16_max a m e) (λ m e. parse-format_uint_sound u16_max b m e)
      k

display_one : (p : PortRange) → p.begin == p.end ≡ true → display p ≡ format_uint p.begin
unfolding display
display_one p e = rw e refl

display_two :
    (p : PortRange)
    → p.begin == p.end ≡ false
    → display p ≡ format_uint p.begin ++ b'-' ∷ format_uint p.end
unfolding display
display_two p e = rw e refl

read_back : (p r : PortRange) → from_str (display p) ≡ ok r → (r.begin ≡ p.begin) × (r.end ≡ p.end)
read_back p r h = elim (Bool-cases (p.begin == p.end)) [
  | inl one ↦
      let (b, e) = read_one p.begin (rw (display_one p one) at h) in (b, ground (arith, one, e))
  | inr two ↦ read_two p.begin p.end (rw (display_two p two) at h)
]

-- A range whose text form is accepted is valid, and what is read is that range.
pub from_str-display_sound : (p r : PortRange) → from_str (display p) ≡ ok r → (r ≡ p) × IsValid p
from_str-display_sound p r h =
    let (b, e) = read_back p r h in
    let same : r ≡ p = λ i. record { begin = b i; end = e i } in
    (same, subst IsValid same (from_str-IsValid (display p) r h))
