-- ===== src/Tests/Listing.antt =====
-- The splitting of listings at concrete inputs: an entry is as long as its name, a listing two
-- bytes longer than its entries, and a packet holds twelve bytes.
use qcp.Prelude.{
  ℕ, ◌+◌, ◌≤◌, ◌≡◌, refl, true, false, Option, none, some, List, [], ◌∷◌, ◌++◌, All, length, ok,
  err, arith,
}
use qcp.Prelude.Text.{Str, codes}
use qcp.Session.Listing.{ListEntry, ListData, endless, packets, split_by_size, join, receive}
use qcp.Session.Listing.RoundTrip.{receive-split_by_size}
use qcp.Session.Listing.Sizes.{split_by_size_total, packets_endless}
use qcp.Session.Listing.Limit.{plus, total, Within, split_by_size-Within}

abbrev entry_size : ListEntry → Option ℕ
entry_size e = some (length e.name)

abbrev data_size : ListData → Option ℕ
data_size d = plus (some 2) (total entry_size d.entries)

abbrev entry : Str → ListEntry
entry name = record { name = name; directory = false; size = 0; attributes = [] }

abbrev listing : ListData
listing = record {
  entries =
      entry (codes "ab")
      ∷ entry (codes "c")
      ∷ entry (codes "def")
      ∷ entry (codes "ghi")
      ∷ entry (codes "jkl")
      ∷ [];
  more_to_come = false;
}

abbrev parts : List ListData
parts =
    record { entries = entry (codes "ab") ∷ entry (codes "c") ∷ []; more_to_come = true }
    ∷ record { entries = entry (codes "def") ∷ []; more_to_come = true }
    ∷ record { entries = entry (codes "ghi") ∷ []; more_to_come = true }
    ∷ record { entries = entry (codes "jkl") ∷ []; more_to_come = false }
    ∷ []

-- The fourteen bytes of the listing do not fit into twelve.
cut : split_by_size entry_size data_size 12 listing ≡ ok parts
unfolding split_by_size
cut = refl

receive-split_by_size_example :
    (receive (parts ++ []) ≡ some (parts, [])) × ((join parts).entries ≡ listing.entries)
receive-split_by_size_example =
    receive-split_by_size entry_size data_size 12 (entry (codes "ab"))
      (entry (codes "c") ∷ entry (codes "def") ∷ entry (codes "ghi") ∷ entry (codes "jkl") ∷ [])
      parts [] cut

split_by_size_total_example :
    (ps : List ListData) × (split_by_size entry_size data_size 12 listing ≡ ok ps)
split_by_size_total_example = split_by_size_total entry_size data_size 12 2 refl listing 14 refl (
  (2, refl, omega arith),
  (
    (1, refl, omega arith),
    ((3, refl, omega arith), ((3, refl, omega arith), ((3, refl, omega arith), tt))),
  ),
)

packets_endless_example :
    packets entry_size data_size 12 100 (entry (codes "abcd") ∷ []) ≡ err endless
packets_endless_example =
    packets_endless entry_size data_size 12 2 refl 100 (entry (codes "abcd")) [] 4 refl
      (omega arith)

two_more : (o : Option ℕ) (m k : ℕ) → plus (some 2) o ≡ some m → o ≡ some k → m ≤ 2 + 7 + k
two_more none m k h e = cc
two_more (some n) m k h e = ground arith

split_by_size-Within_example : All (λ p. Within 12 (data_size p)) parts
split_by_size-Within_example =
    split_by_size-Within entry_size data_size 12 2 refl (omega arith)
      (λ d m k h e. two_more (total entry_size d.entries) m k h e) listing parts cut
