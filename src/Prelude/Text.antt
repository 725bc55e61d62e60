-- ===== src/Prelude/Text.antt =====
-- Text as a list of code points, with the functions of Rust's `str` and of its decimal integers
-- that the program calls.
use Prim.Native.Char.{code}
use Prim.Native.String.{String}
use qcp.Prelude.{
  ℕ, zero, suc, ◌+◌, ◌-◌, ◌*◌, ◌/◌, ◌%◌, ◌≤◌, ◌<◌, ◌≡◌, ◌≢◌, refl, Bool, true, false, ◌&&◌, Option,
  none, some, List, [], ◌∷◌, ◌++◌, append_assoc, append-nil, arith, ltb, leb, ◌==◌, if◌then◌else◌,
  All, All-append, inl, inr, Bool-cases,
}

abbrev pub Str : Type 0
Str = List ℕ

-- The code points of a literal.
abbrev pub codes : String → Str
codes String.[] = []
codes (String.◌∷◌ c s) = code c ∷ codes s

abbrev pub str_eq : Str → Str → Bool
str_eq [] [] = true
str_eq (a ∷ s) (b ∷ t) = a == b && str_eq s t
str_eq _ _ = false

pub str_eq_sound : (s t : Str) → str_eq s t ≡ true → s ≡ t
str_eq_sound [] [] h = refl
str_eq_sound [] (b ∷ t) h = cc
str_eq_sound (a ∷ s) [] h = cc
str_eq_sound (a ∷ s) (b ∷ t) h = ground (arith, str_eq_sound s t)

pub str_eq_refl : (s : Str) → str_eq s s ≡ true
str_eq_refl [] = refl
str_eq_refl (a ∷ s) = ground (arith, str_eq_refl s)

-- `str::split_once` at a character: the text before and after its first occurrence.
abbrev pub keep_left : ℕ → Option (Str × Str) → Option (Str × Str)
keep_left c none = none
keep_left c (some (a, b)) = some (c ∷ a, b)

unfoldable pub split_once : ℕ → Str → Option (Str × Str)
split_once sep [] = none
split_once sep (c ∷ s) = if c == sep then some ([], s) else keep_left c (split_once sep s)

abbrev pub Lacks : ℕ → Str → Type 0
Lacks b = All (λ c. c ≢ b)

pub split_once-append :
    (sep : ℕ) (a b : Str) → Lacks sep a → split_once sep (a ++ sep ∷ b) ≡ some (a, b)
unfolding split_once
split_once-append sep [] b h = ground arith
split_once-append sep (c ∷ a) b (hc, h) = ground (arith, split_once-append sep a b h)

pub split_once-none : (sep : ℕ) (s : Str) → Lacks sep s → split_once sep s ≡ none
unfolding split_once
split_once-none sep [] h = refl
split_once-none sep (c ∷ s) (hc, h) = ground (arith, split_once-none sep s h)

keep_left-eq-some :
    (c : ℕ) (o : Option (Str × Str)) {a b : Str}
    → keep_left c o ≡ some (a, b)
    → (r : Str) × (a ≡ c ∷ r) × (o ≡ some (r, b))
keep_left-eq-some c none h = cc
keep_left-eq-some c (some (r, b)) h = (r, cc, cc)

spell_more :
    (sep c : ℕ) (s a b r : Str)
    → a ≡ c ∷ r
    → c ≢ sep
    → s ≡ r ++ sep ∷ b
    → Lacks sep r
    → (c ∷ s ≡ a ++ sep ∷ b) × Lacks sep a
spell_more sep c s a b r starts other spelt lacks = rw (starts, spelt) (refl, (other, lacks))

-- The two parts around the separator spell the text, and the first does not hold it.
pub split_once_sound :
    (sep : ℕ) (s : Str) {a b : Str}
    → split_once sep s ≡ some (a, b)
    → (s ≡ a ++ sep ∷ b) × Lacks sep a
unfolding split_once
split_once_sound sep [] h = cc
split_once_sound sep (c ∷ s) {a} {b} h = elim (Bool-cases (c == sep)) [
  | inl e ↦
      let first : ◌≡◌ {A = Str} [] a = ground arith in
      let second : s ≡ b = ground arith in rw (← first, ← second) (ground arith, tt)
  | inr e ↦
      let (r, starts, later) = keep_left-eq-some c (split_once sep s) (rw e at h) in
      let (spelt, lacks) = split_once_sound sep s later in
      spell_more sep c s a b r starts (ground arith) spelt lacks
]

-- Decimal digits, as `Display` prints them and `FromStr` reads them.
is_digit : ℕ → Bool
is_digit c = leb b'0' c && leb c b'9'

-- The most significant digit first; the fuel is above the number.
digits : ℕ → ℕ → Str
digits zero n = []
digits (suc f) n = elim (ltb n 10) [
  | true ↦ (b'0' + n) ∷ []
  | false ↦ digits f (n / 10) ++ (b'0' + n % 10) ∷ []
]

unfoldable pub format_uint : ℕ → Str
unfolding digits
format_uint n = digits (suc n) n

-- The digits behind a value already read; `none` at a character that is no digit and at a value
-- above the type's maximum.
scan : ℕ → ℕ → Str → Option ℕ
unfolding is_digit
scan most n [] = some n
scan most n (c ∷ s) =
    let m = n * 10 + (c - b'0') in
    let rest = scan most m s in if is_digit c then if leb m most then rest else none else none

-- `str::parse` into an unsigned integer type with this maximum: an optional plus sign, and one or
-- more digits.
unfoldable pub parse_uint : ℕ → Str → Option ℕ
unfolding scan
parse_uint most [] = none
parse_uint most (c ∷ []) = if c == b'+' then none else scan most 0 (c ∷ [])
parse_uint most (c ∷ d ∷ s) = if c == b'+' then scan most 0 (d ∷ s) else scan most 0 (c ∷ d ∷ s)

digits_small : (f n : ℕ) → ltb n 10 ≡ true → digits (suc f) n ≡ (b'0' + n) ∷ []
unfolding digits
digits_small f n e = rw (e, digits)

digits_large :
    (f n : ℕ) → ltb n 10 ≡ false → digits (suc f) n ≡ digits f (n / 10) ++ (b'0' + n % 10) ∷ []
unfolding digits
digits_large f n e = rw (e, digits)

scan-digits :
    (most f n : ℕ) (rest : Str)
    → n < f
    → n ≤ most
    → scan most 0 (digits f n ++ rest) ≡ scan most n rest
unfolding scan
scan-digits most zero n rest h _ = absurd (omega arith)
scan-digits most (suc f) n rest h fits = elim (Bool-cases (ltb n 10)) [
  | inl small ↦ rw (digits_small f n small) (ground arith)
  | inr large ↦
      let last = (b'0' + n % 10) ∷ rest in
      let ih : scan most 0 (digits f (n / 10) ++ last) ≡ scan most (n / 10) last =
        scan-digits most f (n / 10) last (ground arith) (ground arith) in
      rw (digits_large f n large, append_assoc, ih) (ground arith)
]

abbrev pub IsDigit : ℕ → Type 0
IsDigit c = (b'0' ≤ c) × (c ≤ b'9')

digits-IsDigit : (f n : ℕ) → All IsDigit (digits f n)
unfolding digits
digits-IsDigit zero n = tt
digits-IsDigit (suc f) n = elim (Bool-cases (ltb n 10)) [
  | inl small ↦ rw (digits_small f n small) (ground arith)
  | inr large ↦
      rw (digits_large f n large)
        (All-append IsDigit (digits f (n / 10)) _ (digits-IsDigit f (n / 10)) (ground arith))
]

-- A printed number holds digits only.
pub format_uint-IsDigit : (n : ℕ) → All IsDigit (format_uint n)
unfolding format_uint
format_uint-IsDigit n = digits-IsDigit (suc n) n

Lacks-of_IsDigit : (b : ℕ) (s : Str) → b < b'0' → All IsDigit s → Lacks b s
Lacks-of_IsDigit b [] h _ = tt
Lacks-of_IsDigit b (c ∷ s) h (hc, hs) = (omega arith, Lacks-of_IsDigit b s h hs)

pub format_uint-Lacks : (b n : ℕ) → b < b'0' → Lacks b (format_uint n)
format_uint-Lacks b n h = Lacks-of_IsDigit b (format_uint n) h (format_uint-IsDigit n)

append-ne-nil : (xs : Str) (y : ℕ) (ys : Str) → xs ++ y ∷ ys ≢ []
append-ne-nil [] y ys e = cc
append-ne-nil (x ∷ xs) y ys e = cc

digits-ne-nil : (f n : ℕ) → n < f → digits f n ≢ []
digits-ne-nil zero n h = absurd (omega arith)
digits-ne-nil (suc f) n h = elim (Bool-cases (ltb n 10)) [
  | inl small ↦ rw (digits_small f n small) (λ e. cc)
  | inr large ↦ rw (digits_large f n large) (append-ne-nil (digits f (n / 10)) _ [])
]

parse_uint-digits :
    (most : ℕ) (s : Str) → s ≢ [] → All IsDigit s → parse_uint most s ≡ scan most 0 s
unfolding parse_uint
parse_uint-digits most [] h _ = absurd (h refl)
parse_uint-digits most (c ∷ []) h (hc, hs) = ground arith
parse_uint-digits most (c ∷ d ∷ s) h (hc, hs) = ground arith

format_uint-ne-nil : (n : ℕ) → format_uint n ≢ []
unfolding format_uint
format_uint-ne-nil n = digits-ne-nil (suc n) n (omega arith)

scan_format : (most n : ℕ) → n ≤ most → scan most 0 (format_uint n ++ []) ≡ some n
unfolding format_uint
scan_format most n h = rw (scan-digits most (suc n) n [] (omega arith) h) (unfold scan in refl)

-- A printed number is read back by every type that it fits.
pub parse-format_uint : (most n : ℕ) → n ≤ most → parse_uint most (format_uint n) ≡ some n
parse-format_uint most n h =
    rw
      (
        parse_uint-digits most (format_uint n) (format_uint-ne-nil n) (format_uint-IsDigit n),
        ← append-nil (format_uint n),
      )
      (scan_format most n h)

scan-le : (most n r : ℕ) (s : Str) → n ≤ most → scan most n s ≡ some r → r ≤ most
unfolding scan
scan-le most n r [] fits h = ground arith
scan-le most n r (c ∷ s) fits h = ground (arith, scan-le most (n * 10 + (c - b'0')) r s)

-- What is read fits the type.
pub parse_uint-le : (most : ℕ) (s : Str) {r : ℕ} → parse_uint most s ≡ some r → r ≤ most
unfolding parse_uint
parse_uint-le most [] h = cc
parse_uint-le most (c ∷ []) {r} h = ground (arith, scan-le most 0 r (c ∷ []))
parse_uint-le most (c ∷ d ∷ s) {r} h =
    ground (arith, scan-le most 0 r (d ∷ s), scan-le most 0 r (c ∷ d ∷ s))

scan_hyphen : (most n : ℕ) (a b : Str) → All IsDigit a → scan most n (a ++ b'-' ∷ b) ≡ none
unfolding scan
scan_hyphen most n [] b h = ground arith
scan_hyphen most n (c ∷ a) b (hc, h) = ground (arith, scan_hyphen most (n * 10 + (c - b'0')) a b h)

-- A text with a hyphen behind its digits is no number.
pub parse_uint_hyphen :
    (most : ℕ) (a b : Str) → All IsDigit a → parse_uint most (a ++ b'-' ∷ b) ≡ none
unfolding parse_uint
parse_uint_hyphen most [] [] h = refl
parse_uint_hyphen most [] (d ∷ b) h = ground (arith, scan_hyphen most 0 [] (d ∷ b) tt)
parse_uint_hyphen most (c ∷ []) b h = ground (arith, scan_hyphen most 0 (c ∷ []) b h)
parse_uint_hyphen most (c ∷ d ∷ a) b h = ground (arith, scan_hyphen most 0 (c ∷ d ∷ a) b h)

scan-more :
    (most more n r : ℕ) (s : Str) → most ≤ more → scan most n s ≡ some r → scan more n s ≡ some r
unfolding scan
scan-more most more n r [] fits h = h
scan-more most more n r (c ∷ s) fits h =
    ground (arith, scan-more most more (n * 10 + (c - b'0')) r s)

-- A type with more values reads the same numbers.
parse_uint-more :
    (most more r : ℕ) (s : Str)
    → most ≤ more
    → parse_uint most s ≡ some r
    → parse_uint more s ≡ some r
unfolding parse_uint
parse_uint-more most more r [] fits h = h
parse_uint-more most more r (c ∷ []) fits h = ground (arith, scan-more most more 0 r (c ∷ []))
parse_uint-more most more r (c ∷ d ∷ s) fits h =
    ground (arith, scan-more most more 0 r (d ∷ s), scan-more most more 0 r (c ∷ d ∷ s))

-- A printed number is never read as another one.
pub parse-format_uint_sound : (most n r : ℕ) → parse_uint most (format_uint n) ≡ some r → r ≡ n
parse-format_uint_sound most n r h =
    let wide = parse_uint-more most (most + n) r (format_uint n) (omega arith) h in
    let exact = parse-format_uint (most + n) n (omega arith) in cc
