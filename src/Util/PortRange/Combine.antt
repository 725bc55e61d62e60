-- ===== src/Util/PortRange/Combine.antt =====
-- `PortRange::combine` against the set of ports that a range allows.
use qcp.Prelude.{ℕ, ◌<◌, ◌≡◌, Bool, false, ◌&&◌, ◌||◌, arith, leb, ok, err}
use qcp.Util.PortRange.{PortRange, is_default, combine, IsValid}

-- A port that a range allows; the range of port 0 alone expresses no preference.
abbrev pub allows : PortRange → ℕ → Bool
unfolding is_default
allows r p = is_default r || (leb r.begin p && leb p r.end)

module _ (a b : PortRange) (va : IsValid a) (vb : IsValid b) where
  -- If two valid ranges combine, their combination is valid, and of the ports other than 0 it allows
  -- exactly those that both allow.
  pub combine_sound :
      (c : PortRange) (p : ℕ)
      → combine a b ≡ ok c
      → 0 < p
      → IsValid c × (allows c p ≡ (allows a p && allows b p))
  unfolding combine
  combine_sound c p h pos = (ground arith, ground arith)

  -- If two valid ranges do not combine, no port other than 0 is allowed by both.
  pub combine_complete :
      (e : PortRange × PortRange)
      → combine a b ≡ err e
      → (p : ℕ) → 0 < p
      → (allows a p && allows b p) ≡ false
  unfolding combine
  combine_complete e h p pos = ground arith
