-- ===== src/Session/Listing.antt =====
-- qcp/src/protocol/session/response.rs and qcp/src/session/ls.rs: a directory listing is split into
-- packets within the limit of a message, and joined on arrival. `entry_size` and `data_size` are the
-- lengths of the BARE encodings, `none` where the encoding fails. The outer loop of the splitting
-- need not end, so that it has fuel.
pub mod RoundTrip
pub mod Sizes
pub mod Limit
use qcp.Prelude.{
  ℕ, zero, suc, ◌+◌, Bool, true, false, not, Option, none, some, List, [], ◌∷◌, ◌++◌, ltb, leb,
  if◌then◌else◌, length, Result, ok, err, ◌>>=◌,
}
use qcp.Prelude.Text.{Str}
use qcp.Protocol.DataTag.{TaggedData}
use qcp.Session.Attributes.{MetadataAttr}

pub record ListEntry : Type 0 where
  pub name : Str
  pub directory : Bool
  pub size : ℕ
  pub attributes : List (TaggedData MetadataAttr)

pub record ListData : Type 0 where
  pub entries : List ListEntry
  pub more_to_come : Bool

-- An encoding that fails, or a loop that does not end: in the code no value stands for the latter.
pub data SplitError : Type 0 where
  encoding endless : SplitError

abbrev pub size_of : Option ℕ → Result SplitError ℕ
size_of none = err encoding
size_of (some n) = ok n

abbrev pub is_empty : List ListEntry → Bool
is_empty [] = true
is_empty (e ∷ es) = false

-- `ListData::default`
abbrev pub no_entries : ListData
no_entries = record { entries = []; more_to_come = false }

-- The entries of a packet, and those that are left.
abbrev pub Filled : Type 0
Filled = List ListEntry × List ListEntry

abbrev pub add : ListEntry → Result SplitError Filled → Result SplitError Filled
add e r = r >>= λ (taken, left). ok (e ∷ taken, left)

module _ (entry_size : ListEntry → Option ℕ) (data_size : ListData → Option ℕ) (max_size : ℕ) where
  -- The inner loop: entries are taken as long as they fit.
  unfoldable pub fill : ℕ → List ListEntry → Result SplitError Filled
  fill current_size [] = ok ([], [])
  fill current_size (front ∷ input) = size_of (entry_size front) >>= λ n.
      let rest = fill (current_size + n) input in
      if ltb max_size (current_size + n) then ok ([], front ∷ input) else add front rest

  unfoldable pub packets : ℕ → List ListEntry → Result SplitError (List ListData)
  unfolding fill
  packets fuel [] = ok []
  packets zero (e ∷ input) = err endless
  packets (suc fuel) (e ∷ input) = size_of (data_size no_entries) >>= λ n.
      fill (n + 7) (e ∷ input) >>= λ (taken, left). packets fuel left >>= λ more.
      ok (record { entries = taken; more_to_come = not (is_empty left) } ∷ more)

  unfoldable pub split_by_size : ListData → Result SplitError (List ListData)
  unfolding packets
  split_by_size self = size_of (data_size self) >>= λ n.
      if leb n max_size then ok (self ∷ []) else packets (length self.entries) self.entries

unfoldable pub join : List ListData → ListData
join [] = no_entries
join (part ∷ parts) = record no_entries { entries = part.entries ++ (join parts).entries }

-- The client's loop over the packets on the stream: those that belong to the listing, and the rest;
-- `none` is the end of the stream before the last packet.
unfoldable pub receive : List ListData → Option (List ListData × List ListData)
receive [] = none
receive (packet ∷ stream) =
    let later = receive stream in
    if packet.more_to_come
    then elim later [ none ↦ none | some (data_, rest) ↦ some (packet ∷ data_, rest) ]
    else some (packet ∷ [], stream)
