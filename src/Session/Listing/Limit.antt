-- ===== src/Session/Listing/Limit.antt =====
-- The size of each packet. The encoding of a listing takes up that of an empty one, those of its
-- entries, and at most seven bytes for the growth of the length field: `grows`.
use qcp.Prelude.{
  ℕ, zero, suc, ◌+◌, ◌≤◌, ◌≡◌, refl, not, Option, none, some, List, [], ◌∷◌, All, ltb, leb, length,
  ok, >>=-eq-ok, Option-cases, Bool-cases, inl, inr, arith, leb→le,
}
use qcp.Session.Listing.{
  ListEntry, ListData, size_of, is_empty, no_entries, Filled, fill, packets, split_by_size,
}

abbrev pub plus : Option ℕ → Option ℕ → Option ℕ
plus none o = none
plus (some n) none = none
plus (some n) (some k) = some (n + k)

abbrev pub total : (ListEntry → Option ℕ) → List ListEntry → Option ℕ
total entry_size [] = some 0
total entry_size (e ∷ es) = plus (entry_size e) (total entry_size es)

-- An encoding that exists is within the limit.
abbrev pub Within : ℕ → Option ℕ → Type 0
Within max_size none = Unit
Within max_size (some m) = m ≤ max_size

module _ (entry_size : ListEntry → Option ℕ) (data_size : ListData → Option ℕ) (max_size base : ℕ)
    (empty_size : data_size no_entries ≡ some base) (room : base + 7 ≤ max_size)
    (grows : (d : ListData) (m k : ℕ)
      → data_size d ≡ some m
      → total entry_size d.entries ≡ some k
      → m ≤ base + 7 + k) where
  fill-total :
      (current_size : ℕ) (input : List ListEntry) (r : Filled)
      → fill entry_size data_size max_size current_size input ≡ ok r
      → current_size ≤ max_size
      → (k : ℕ) × (total entry_size r.0 ≡ some k) × (current_size + k ≤ max_size)
  unfolding fill
  fill-total current_size [] r h small =
      let same : ◌≡◌ {A = Filled} ([], []) r = cc in rw (← same) (0, refl, omega arith)
  fill-total current_size (front ∷ input) r h small = elim (Option-cases (entry_size front)) [
    | inl e ↦ let k = rw e at h in cc
    | inr (n, sized) ↦
        let h1 = rw (sized, size_of) at h in
        elim (Bool-cases (ltb max_size (current_size + n))) [
          | inl e ↦
              let k = rw e at h1 in
              let same : ◌≡◌ {A = Filled} ([], front ∷ input) r = cc in
              rw (← same) (0, refl, omega arith)
          | inr e ↦
              let (s, filled, h2) =
                >>=-eq-ok (fill entry_size data_size max_size (current_size + n) input) _
                  (rw e at h1) in
              let same : ◌≡◌ {A = Filled} (front ∷ s.0, s.1) r = cc in
              let (k, sum, within) = fill-total (current_size + n) input s filled (ground arith) in
              rw (← same, sized, sum) (n + k, refl, omega (arith, within))
        ]
  ]

  packet-Within :
      (d : ListData) (k : ℕ)
      → total entry_size d.entries ≡ some k
      → base + 7 + k ≤ max_size
      → Within max_size (data_size d)
  packet-Within d k sum small = elim (Option-cases (data_size d)) [
    | inl e ↦ rw e tt
    | inr (m, e) ↦ rw e (omega (arith, grows d m k e sum))
  ]

  packets-Within :
      (fuel : ℕ) (input : List ListEntry) (ps : List ListData)
      → packets entry_size data_size max_size fuel input ≡ ok ps
      → All (λ p. Within max_size (data_size p)) ps
  unfolding packets
  packets-Within fuel [] ps h = let same : ◌≡◌ {A = List ListData} [] ps = cc in rw (← same) tt
  packets-Within zero (e ∷ input) ps h = cc
  packets-Within (suc fuel) (e ∷ input) ps h =
      let h1 = rw (empty_size, size_of) at h in
      let (r, filled, h2) =
        >>=-eq-ok (fill entry_size data_size max_size (base + 7) (e ∷ input)) _ h1 in
      let (more, later, h3) = >>=-eq-ok (packets entry_size data_size max_size fuel r.1) _ h2 in
      let p : ListData = record { entries = r.0; more_to_come = not (is_empty r.1) } in
      let same : ◌≡◌ {A = List ListData} (p ∷ more) ps = cc in
      let (k, sum, within) = fill-total (base + 7) (e ∷ input) r filled room in
      rw (← same) (packet-Within p k sum within, packets-Within fuel r.1 more later)

  -- Every packet that the splitting returns encodes to no more than the limit.
  pub split_by_size-Within :
      (self : ListData) (ps : List ListData)
      → split_by_size entry_size data_size max_size self ≡ ok ps
      → All (λ p. Within max_size (data_size p)) ps
  unfolding split_by_size
  split_by_size-Within self ps h = elim (Option-cases (data_size self)) [
    | inl e ↦ let k = rw e at h in cc
    | inr (n, sized) ↦
        let h1 = rw (sized, size_of) at h in
        elim (Bool-cases (leb n max_size)) [
          | inl small ↦
              let k = rw small at h1 in
              let same : ◌≡◌ {A = List ListData} (self ∷ []) ps = cc in
              rw (← same, sized) (leb→le n max_size small, tt)
          | inr big ↦ packets-Within (length self.entries) self.entries ps (rw big at h1)
        ]
  ]
