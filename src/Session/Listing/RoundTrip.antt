-- ===== src/Session/Listing/RoundTrip.antt =====
-- A listing that is split is joined to the same entries.
use qcp.Prelude.{
  ℕ, zero, suc, ◌+◌, ◌≡◌, refl, false, not, Option, some, List, [], ◌∷◌, ◌++◌, append-nil, ltb, leb,
  length, ok, >>=-eq-ok, Bool-cases, inl, inr,
}
use qcp.Session.Listing.{
  ListEntry, ListData, size_of, is_empty, no_entries, Filled, fill, packets, split_by_size, join,
  receive,
}

one_packet :
    (e : ListEntry) (es : List ListEntry) (rest : List ListData)
    → (receive (record { entries = e ∷ es; more_to_come = false } ∷ rest)
        ≡ some (record { entries = e ∷ es; more_to_come = false } ∷ [], rest))
      × ((join (record { entries = e ∷ es; more_to_come = false } ∷ [])).entries ≡ e ∷ es)
unfolding receive join
one_packet e es rest = (refl, append-nil (e ∷ es))

module _ (entry_size : ListEntry → Option ℕ) (data_size : ListData → Option ℕ) (max_size : ℕ) where
  fill_parts :
      (current_size : ℕ) (input : List ListEntry) (r : Filled)
      → fill entry_size data_size max_size current_size input ≡ ok r
      → r.0 ++ r.1 ≡ input
  unfolding fill
  fill_parts current_size [] r h = let same : ◌≡◌ {A = Filled} ([], []) r = cc in rw (← same) refl
  fill_parts current_size (front ∷ input) r h =
      let (n, sized, h1) = >>=-eq-ok (size_of (entry_size front)) _ h in
      elim (Bool-cases (ltb max_size (current_size + n))) [
        | inl e ↦
            let k = rw e at h1 in
            let same : ◌≡◌ {A = Filled} ([], front ∷ input) r = cc in rw (← same) refl
        | inr e ↦
            let (s, filled, h2) =
              >>=-eq-ok (fill entry_size data_size max_size (current_size + n) input) _
                (rw e at h1) in
            let same : ◌≡◌ {A = Filled} (front ∷ s.0, s.1) r = cc in
            rw (← same, fill_parts (current_size + n) input s filled) refl
      ]

  packets-join :
      (fuel : ℕ) (input : List ListEntry) (ps : List ListData)
      → packets entry_size data_size max_size fuel input ≡ ok ps
      → (join ps).entries ≡ input
  unfolding packets join
  packets-join fuel [] ps h = let same : ◌≡◌ {A = List ListData} [] ps = cc in rw (← same) refl
  packets-join zero (e ∷ input) ps h = cc
  packets-join (suc fuel) (e ∷ input) ps h =
      let (n, sized, h1) = >>=-eq-ok (size_of (data_size no_entries)) _ h in
      let (r, filled, h2) =
        >>=-eq-ok (fill entry_size data_size max_size (n + 7) (e ∷ input)) _ h1 in
      let (more, later, h3) = >>=-eq-ok (packets entry_size data_size max_size fuel r.1) _ h2 in
      let same : ◌≡◌ {A = List ListData}
          (record { entries = r.0; more_to_come = not (is_empty r.1) } ∷ more) ps =
        cc in
      rw (← same, packets-join fuel r.1 more later) (fill_parts (n + 7) (e ∷ input) r filled)

  receive_last :
      (taken left : List ListEntry) (fuel : ℕ) (more rest : List ListData)
      → ((e : ListEntry) (input : List ListEntry)
          → packets entry_size data_size max_size fuel (e ∷ input) ≡ ok more
          → receive (more ++ rest) ≡ some (more, rest))
      → packets entry_size data_size max_size fuel left ≡ ok more
      → receive (record { entries = taken; more_to_come = not (is_empty left) } ∷ more ++ rest)
        ≡ some (record { entries = taken; more_to_come = not (is_empty left) } ∷ more, rest)
  unfolding receive packets
  receive_last taken [] fuel more rest ih h =
      let same : ◌≡◌ {A = List ListData} [] more = cc in rw (← same) refl
  receive_last taken (e ∷ left) fuel more rest ih h = rw (ih e left h) refl

  packets-receive :
      (fuel : ℕ) (e : ListEntry) (input : List ListEntry) (ps rest : List ListData)
      → packets entry_size data_size max_size fuel (e ∷ input) ≡ ok ps
      → receive (ps ++ rest) ≡ some (ps, rest)
  unfolding packets
  packets-receive zero e input ps rest h = cc
  packets-receive (suc fuel) e input ps rest h =
      let (n, sized, h1) = >>=-eq-ok (size_of (data_size no_entries)) _ h in
      let (r, filled, h2) =
        >>=-eq-ok (fill entry_size data_size max_size (n + 7) (e ∷ input)) _ h1 in
      let (more, later, h3) = >>=-eq-ok (packets entry_size data_size max_size fuel r.1) _ h2 in
      let same : ◌≡◌ {A = List ListData}
          (record { entries = r.0; more_to_come = not (is_empty r.1) } ∷ more) ps =
        cc in
      rw (← same) (
        receive_last r.0 r.1 fuel more rest
          (λ e' input' h'. packets-receive fuel e' input' more rest h') later)

  -- If a listing with an entry is split, the client reads back exactly its packets, whatever follows
  -- them, and joins them to the same entries in the same order.
  pub receive-split_by_size :
      (e : ListEntry) (es : List ListEntry) (ps rest : List ListData)
      → split_by_size entry_size data_size max_size
          (record { entries = e ∷ es; more_to_come = false })
        ≡ ok ps
      → (receive (ps ++ rest) ≡ some (ps, rest)) × ((join ps).entries ≡ e ∷ es)
  unfolding split_by_size
  receive-split_by_size e es ps rest h =
      let d : ListData = record { entries = e ∷ es; more_to_come = false } in
      let (n, sized, h1) = >>=-eq-ok (size_of (data_size d)) _ h in
      elim (Bool-cases (leb n max_size)) [
        | inl small ↦
            let k = rw small at h1 in
            let same : ◌≡◌ {A = List ListData} (d ∷ []) ps = cc in
            rw (← same) (one_packet e es rest)
        | inr big ↦
            let k = rw big at h1 in
            (
              packets-receive (length (e ∷ es)) e es ps rest k,
              packets-join (length (e ∷ es)) (e ∷ es) ps k,
            )
      ]
