-- ===== src/Config/Manager/Reading.antt =====
-- What the extraction from a manager's text gives back.
use qcp.Prelude.{
  ◌≡◌, refl, Option, none, some, ok, err, >>=-eq-ok, sym, ap, ◌∙◌, Result-cases, inl, inr,
}
use qcp.Util.PortRange.{PortRange, ParseError, IsValid, display, from_str}
use qcp.Util.PortRange.Text.{from_str-display, from_str-display_sound}
use qcp.Config.{Configuration, ConfigurationOptional}
use qcp.Config.Manager.{read_port, get_optional, get, with_system_default}

-- A port range that is not there, or one that the parser could have made.
abbrev pub IsReadable : Option PortRange → Type 0
IsReadable none = Unit
IsReadable (some p) = IsValid p

read_port_sound : (o r : Option PortRange) → read_port o ≡ ok r → (r ≡ o) × IsReadable o
unfolding read_port
read_port_sound none r h = (cc, tt)
read_port_sound (some p) r h =
    let (q, hq, hr) = >>=-eq-ok (from_str (display p)) _ h in
    let (same, valid) = from_str-display_sound p q hq in
    let first : some q ≡ r = cc in (sym first ∙ ap some same, valid)

read_port_complete : (o : Option PortRange) → IsReadable o → read_port o ≡ ok o
unfolding read_port
read_port_complete none h = refl
read_port_complete (some p) h = rw (from_str-display p h) refl

pub readable_fails :
    (o : Option PortRange) (v : ParseError) → IsReadable o → read_port o ≡ err v → ⊥
readable_fails o v h k = let ok_ = read_port_complete o h in cc

pub read_port_failure :
    (x : PortRange) (v : ParseError) → read_port (some x) ≡ err v → from_str (display x) ≡ err v
unfolding read_port
read_port_failure x v h = elim (Result-cases (from_str (display x))) [
  | inl (r, e) ↦ let k = rw e at h in cc
  | inr (v', e) ↦ let k = rw e at h in let same : v' ≡ v = cc in e ∙ ap err same
]

-- If the extraction of a configuration whose other ports can be read fails, its ports cannot.
pub get_failure :
    (m : ConfigurationOptional) (v : ParseError)
    → get m ≡ err v
    → IsReadable m.remote_port
    → read_port m.port ≡ err v
unfolding get get_optional
get_failure m v h k = elim (Result-cases (read_port m.port)) [
  | inl (p, e) ↦ let l = rw (e, read_port_complete m.remote_port k) at h in cc
  | inr (v', e) ↦ let l = rw e at h in let same : v' ≡ v = cc in e ∙ ap err same
]

-- What is read is what was there, and its ranges are valid.
pub get_optional_sound :
    (m o : ConfigurationOptional)
    → get_optional m ≡ ok o
    → (o ≡ m) × IsReadable m.port × IsReadable m.remote_port
unfolding get_optional
get_optional_sound m o h =
    let (port, hp, h1) = >>=-eq-ok (read_port m.port) _ h in
    let (remote, hr, h2) = >>=-eq-ok (read_port m.remote_port) _ h1 in
    let (p, readable) = read_port_sound m.port port hp in
    let (q, also) = read_port_sound m.remote_port remote hr in
    let first : (record m { port = port; remote_port = remote }) ≡ o = cc in
    (sym first ∙ (λ i. record m { port = p i; remote_port = q i }), readable, also)

pub get_optional_complete :
    (m : ConfigurationOptional)
    → IsReadable m.port
    → IsReadable m.remote_port
    → get_optional m ≡ ok m
unfolding get_optional
get_optional_complete m h k =
    rw (read_port_complete m.port h, read_port_complete m.remote_port k) refl

pub get_sound :
    (m : ConfigurationOptional) (c : Configuration)
    → get m ≡ ok c
    → (c ≡ with_system_default m) × IsReadable m.port × IsReadable m.remote_port
unfolding get
get_sound m c h =
    let (o, ho, hc) = >>=-eq-ok (get_optional m) _ h in
    let (same, p, q) = get_optional_sound m o ho in
    let first : with_system_default o ≡ c = cc in (sym first ∙ ap with_system_default same, p, q)

pub get_complete :
    (m : ConfigurationOptional)
    → IsReadable m.port
    → IsReadable m.remote_port
    → get m ≡ ok (with_system_default m)
unfolding get
get_complete m h k = rw (get_optional_complete m h k) refl
