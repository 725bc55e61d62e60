-- ===== src/Client/Recursive/Places.antt =====
-- Where the entries of a listing come to stand: the tree below the source of a job becomes the same
-- tree below the place for it.
use mathlib.Core.List
use mathlib.Core.Path.{sym, subst}
use qcp.Prelude.{
  ℕ, ◌≡◌, ◌≢◌, refl, false, Option, some, List, [], ◌∷◌, ◌++◌, append_assoc, append-nil,
  if◌then◌else◌, All, Distinct, Distinct-map, arith, Bool-cases, inl, inr,
}
use qcp.Prelude.Text.{Str}
use qcp.Session.Listing.{ListEntry}
use qcp.Util.FilePath.{starts_absolute, ends_with, push}
use qcp.Client.Job.{CopyJobSpec}
use qcp.Client.Recursive.{
  strip_prefix, trim_separators, is_empty, add_pathsep_if_needed, extend, leaf_of, base_of,
  destination_of, new_job, new_jobs_of,
}

-- The path of what lies under a directory: nothing more for the directory itself.
abbrev pub under : Str → Str → Str
under dir tail = if is_empty tail then dir else push dir tail

abbrev pub IsRelative : Str → Type 0
IsRelative tail = starts_absolute tail ≡ false

strip_prefix-append : (prefix s : Str) → strip_prefix prefix (prefix ++ s) ≡ some s
unfolding strip_prefix
strip_prefix-append [] s = refl
strip_prefix-append (c ∷ prefix) s = ground (arith, strip_prefix-append prefix s)

trim_separators-relative : (tail : Str) → IsRelative tail → trim_separators tail ≡ tail
unfolding trim_separators
trim_separators-relative [] h = refl
trim_separators-relative (c ∷ tail) h = rw h refl

leaf_of-append : (source s : Str) → leaf_of source (source ++ s) ≡ trim_separators s
unfolding leaf_of
leaf_of-append source s = rw (strip_prefix-append source s) refl

-- `push` for a relative path is what the loop does by hand.
separator : Str → Str
separator dir = if is_empty dir then [] else if ends_with b'/' dir then [] else b'/' ∷ []

push-relative : (dir tail : Str) → IsRelative tail → push dir tail ≡ dir ++ (separator dir ++ tail)
unfolding push separator
push-relative [] tail h = rw h refl
push-relative (c ∷ dir) tail h = elim (Bool-cases (ends_with b'/' (c ∷ dir))) [
  | inl e ↦ rw (h, e) refl
  | inr e ↦ rw (h, e) refl
]

add_pathsep-separator : (dir : Str) → add_pathsep_if_needed dir ≡ dir ++ separator dir
unfolding add_pathsep_if_needed separator
add_pathsep-separator [] = refl
add_pathsep-separator (c ∷ dir) = elim (Bool-cases (ends_with b'/' (c ∷ dir))) [
  | inl e ↦ rw (e, append-nil (c ∷ dir)) refl
  | inr e ↦ rw e refl
]

extend-under : (dir tail : Str) → IsRelative tail → extend dir tail ≡ under dir tail
unfolding extend
extend-under dir [] h = refl
extend-under dir (c ∷ tail) h =
    rw
      (
        push-relative dir (c ∷ tail) h,
        add_pathsep-separator dir,
        append_assoc dir (separator dir) (c ∷ tail),
      )
      refl

trim-separator : (dir tail : Str) → IsRelative tail → trim_separators (separator dir ++ tail) ≡ tail
unfolding separator trim_separators
trim-separator [] tail h = trim_separators-relative tail h
trim-separator (c ∷ dir) tail h = elim (Bool-cases (ends_with b'/' (c ∷ dir))) [
  | inl e ↦ rw e (trim_separators-relative tail h)
  | inr e ↦ rw e (trim_separators-relative tail h)
]

leaf_of-under : (source tail : Str) → IsRelative tail → leaf_of source (under source tail) ≡ tail
unfolding trim_separators
leaf_of-under source [] h =
    subst (λ s. leaf_of source s ≡ []) (append-nil source) (leaf_of-append source [])
leaf_of-under source (c ∷ tail) h =
    rw (push-relative source (c ∷ tail) h, leaf_of-append source (separator source ++ c ∷ tail))
      (trim-separator source (c ∷ tail) h)

destination_of-under :
    (mode : Option Str) (job : CopyJobSpec) (tail : Str)
    → IsRelative tail
    → destination_of mode job (under job.source.filename tail) ≡ under (base_of mode job) tail
unfolding destination_of
destination_of-under mode job tail h =
    rw (leaf_of-under job.source.filename tail h) (extend-under (base_of mode job) tail h)

append-cancel : (s t u : Str) → s ++ t ≡ s ++ u → t ≡ u
append-cancel [] t u h = h
append-cancel (c ∷ s) t u h = append-cancel s t u cc

-- What `under` writes behind the directory.
written : Str → Str → Str
unfolding separator
written dir tail = if is_empty tail then [] else separator dir ++ tail

under-written : (dir tail : Str) → IsRelative tail → under dir tail ≡ dir ++ written dir tail
unfolding written
under-written dir [] h = rw (append-nil dir) refl
under-written dir (c ∷ tail) h = push-relative dir (c ∷ tail) h

written-ne-nil : (dir : Str) (c : ℕ) (tail : Str) → [] ≢ written dir (c ∷ tail)
unfolding written separator
written-ne-nil [] c tail = λ h. cc
written-ne-nil (d ∷ dir) c tail = λ h. elim (Bool-cases (ends_with b'/' (d ∷ dir))) [
  | inl e ↦ let k = rw e at h in cc
  | inr e ↦ let k = rw e at h in cc
]

written-injective : (dir r s : Str) → written dir r ≡ written dir s → r ≡ s
unfolding written
written-injective dir [] [] h = refl
written-injective dir [] (c ∷ s) h = elim (written-ne-nil dir c s h) [ ]
written-injective dir (c ∷ r) [] h = elim (written-ne-nil dir c r (sym h)) [ ]
written-injective dir (c ∷ r) (d ∷ s) h = append-cancel (separator dir) (c ∷ r) (d ∷ s) h

under-injective : (dir r s : Str) → IsRelative r → IsRelative s → under dir r ≡ under dir s → r ≡ s
under-injective dir r s hr hs h = written-injective dir r s (
    append-cancel dir (written dir r) (written dir s)
      (rw (under-written dir r hr, under-written dir s hs) at h))

-- The jobs made of a listing, for entries at these places under the source.
pub record Mirror (mode : Option Str) (job : CopyJobSpec) (entries : List ListEntry)
    (tails : List Str) : Type 0 where
  pub sources :
      List.map (λ j. j.source.filename) (new_jobs_of mode job entries)
      ≡ List.map (under job.source.filename) tails
  pub destinations :
      List.map (λ j. j.destination.filename) (new_jobs_of mode job entries)
      ≡ List.map (under (base_of mode job)) tails
  pub apart : Distinct (List.map (λ j. j.destination.filename) (new_jobs_of mode job entries))

mirrored :
    (mode : Option Str) (job : CopyJobSpec) (entries : List ListEntry) (tails : List Str)
    → List.map (λ item. item.name) entries ≡ List.map (under job.source.filename) tails
    → All IsRelative tails
    → List.map (λ j. j.destination.filename) (new_jobs_of mode job entries)
      ≡ List.map (under (base_of mode job)) tails
unfolding new_jobs_of new_job
mirrored mode job [] [] h all = refl
mirrored mode job [] (t ∷ ts) h all = cc
mirrored mode job (x ∷ xs) [] h all = cc
mirrored mode job (x ∷ xs) (t ∷ ts) h (ht, all) =
    let name : x.name ≡ under job.source.filename t = cc in
    rw (name, destination_of-under mode job t ht, mirrored mode job xs ts (cc) all) refl

sources_kept :
    (mode : Option Str) (job : CopyJobSpec) (entries : List ListEntry)
    → List.map (λ j. j.source.filename) (new_jobs_of mode job entries)
      ≡ List.map (λ item. item.name) entries
unfolding new_jobs_of new_job
sources_kept mode job [] = refl
sources_kept mode job (x ∷ xs) = rw (sources_kept mode job xs) refl

-- Where the names in a listing are those of different paths under the source of the job, the new
-- jobs copy those paths, in order, to the same paths under the place for the source, and no two of
-- them go to the same place.
pub new_jobs_of-Mirror :
    (mode : Option Str) (job : CopyJobSpec) (entries : List ListEntry) (tails : List Str)
    → List.map (λ item. item.name) entries ≡ List.map (under job.source.filename) tails
    → All IsRelative tails
    → Distinct tails
    → Mirror mode job entries tails
new_jobs_of-Mirror mode job entries tails h all different =
    let placed = mirrored mode job entries tails h all in
    record {
      sources = rw (sources_kept mode job entries, h) refl;
      destinations = placed;
      apart = rw placed (
          Distinct-map (under (base_of mode job)) IsRelative (under-injective (base_of mode job))
            tails all different);
    }
