-- ===== src/Session/Listing/Sizes.antt =====
-- When the splitting ends, and how large its packets are.
use qcp.Prelude.{
  ℕ, zero, suc, ◌+◌, ◌≤◌, ◌<◌, ◌≡◌, refl, true, false, not, Option, some, List, [], ◌∷◌, All, ltb,
  leb, length, ok, err, >>=-eq-ok, Bool-cases, inl, inr, arith,
}
use qcp.Session.Listing.{
  ListEntry, ListData, endless, size_of, is_empty, no_entries, Filled, fill, packets, split_by_size,
}

module _ (entry_size : ListEntry → Option ℕ) (data_size : ListData → Option ℕ) (max_size base : ℕ)
    (empty_size : data_size no_entries ≡ some base) where
  -- An entry that fits a packet of its own.
  abbrev pub FitsAlone : ListEntry → Type 0
  FitsAlone e = (n : ℕ) × (entry_size e ≡ some n) × (base + 7 + n ≤ max_size)

  fill_left :
      (current_size : ℕ) (input : List ListEntry) (r : Filled)
      → fill entry_size data_size max_size current_size input ≡ ok r
      → All FitsAlone input
      → All FitsAlone r.1 × (length r.1 ≤ length input)
  unfolding fill
  fill_left current_size [] r h all =
      let same : ◌≡◌ {A = Filled} ([], []) r = cc in rw (← same) (tt, omega arith)
  fill_left current_size (front ∷ input) r h (here, all) =
      let (n, sized, h1) = >>=-eq-ok (size_of (entry_size front)) _ h in
      elim (Bool-cases (ltb max_size (current_size + n))) [
        | inl e ↦
            let k = rw e at h1 in
            let same : ◌≡◌ {A = Filled} ([], front ∷ input) r = cc in
            rw (← same) ((here, all), omega arith)
        | inr e ↦
            let (s, filled, h2) =
              >>=-eq-ok (fill entry_size data_size max_size (current_size + n) input) _
                (rw e at h1) in
            let same : ◌≡◌ {A = Filled} (front ∷ s.0, s.1) r = cc in
            let (fit, shorter) = fill_left (current_size + n) input s filled all in
            rw (← same) (fit, omega (arith, shorter))
      ]

  -- Where every entry has a size, the inner loop returns.
  fill_total :
      (current_size : ℕ) (input : List ListEntry)
      → All FitsAlone input
      → (r : Filled) × (fill entry_size data_size max_size current_size input ≡ ok r)
  unfolding fill
  fill_total current_size [] all = (([], []), refl)
  fill_total current_size (front ∷ input) ((n, sized, small), all) =
      let (r, filled) = fill_total (current_size + n) input all in
      elim (Bool-cases (ltb max_size (current_size + n))) [
        | inl e ↦ rw (sized, e) (([], front ∷ input), refl)
        | inr e ↦ rw (sized, e, filled) ((front ∷ r.0, r.1), refl)
      ]

  room : (n : ℕ) → base + 7 + n ≤ max_size → ltb max_size (base + 7 + n) ≡ false
  room n h = ground arith

  no_room : (n : ℕ) → max_size < base + 7 + n → ltb max_size (base + 7 + n) ≡ true
  no_room n h = ground arith

  -- The first entry of a packet is taken, so that the input gets shorter.
  fill_shorter :
      (e : ListEntry) (input : List ListEntry) (r : Filled)
      → fill entry_size data_size max_size (base + 7) (e ∷ input) ≡ ok r
      → FitsAlone e
      → All FitsAlone input
      → All FitsAlone r.1 × (length r.1 ≤ length input)
  unfolding fill
  fill_shorter e input r h (n, sized, small) all =
      let k = rw (sized, size_of, room n small) at h in
      let (s, filled, h2) =
        >>=-eq-ok (fill entry_size data_size max_size (base + 7 + n) input) _ k in
      let same : ◌≡◌ {A = Filled} (e ∷ s.0, s.1) r = cc in
      rw (← same) (fill_left (base + 7 + n) input s filled all)

  packets_total :
      (fuel : ℕ) (input : List ListEntry)
      → length input ≤ fuel
      → All FitsAlone input
      → (ps : List ListData) × (packets entry_size data_size max_size fuel input ≡ ok ps)
  unfolding packets
  packets_total fuel [] enough all = ([], refl)
  packets_total zero (x ∷ input) enough all = absurd (omega arith)
  packets_total (suc fuel) (x ∷ input) enough (here, all) =
      let (r, filled) = fill_total (base + 7) (x ∷ input) (here, all) in
      let (fit, shorter) = fill_shorter x input r filled here all in
      let (ps, later) = packets_total fuel r.1 (omega (arith, enough, shorter)) fit in
      rw (empty_size, filled, later)
        (record { entries = r.0; more_to_come = not (is_empty r.1) } ∷ ps, refl)

  -- Where every entry fits a packet of its own, the splitting ends with packets.
  pub split_by_size_total :
      (self : ListData) (size : ℕ)
      → data_size self ≡ some size
      → All FitsAlone self.entries
      → (ps : List ListData) × (split_by_size entry_size data_size max_size self ≡ ok ps)
  unfolding split_by_size
  split_by_size_total self size sized all = elim (Bool-cases (leb size max_size)) [
    | inl e ↦ rw (sized, e) (self ∷ [], refl)
    | inr e ↦ rw (sized, e) (packets_total (length self.entries) self.entries (omega arith) all)
  ]

  fill_nothing :
      (x : ListEntry) (input : List ListEntry) (n : ℕ)
      → entry_size x ≡ some n
      → max_size < base + 7 + n
      → fill entry_size data_size max_size (base + 7) (x ∷ input) ≡ ok ([], x ∷ input)
  unfolding fill
  fill_nothing x input n sized big = rw (sized, no_room n big) refl

  -- An entry that does not fit a packet of its own is put back for ever: no number of iterations
  -- ends the splitting of entries that start with it.
  pub packets_endless :
      (fuel : ℕ) (x : ListEntry) (input : List ListEntry) (n : ℕ)
      → entry_size x ≡ some n
      → max_size < base + 7 + n
      → packets entry_size data_size max_size fuel (x ∷ input) ≡ err endless
  unfolding packets
  packets_endless zero x input n sized big = refl
  packets_endless (suc fuel) x input n sized big =
      rw (empty_size, fill_nothing x input n sized big, packets_endless fuel x input n sized big)
        refl
