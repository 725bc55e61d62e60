-- ===== src/Client/Paths/Tree.antt =====
-- Where the files of a local directory go on the remote: to the same path below one stem.
use mathlib.Core.List
use mathlib.Core.Path.{subst}
use qcp.Prelude.{
  ◌-◌, ◌≡◌, ◌≢◌, refl, sym, ap, Bool, List, [], ◌∷◌, ◌++◌, append_assoc, length, length-append,
  drop-append, Result, ok, err, >>=-eq-ok, All, arith, Bool-cases, inl, inr,
}
use qcp.Prelude.Text.{Str, codes, Lacks}
use qcp.Util.FilePath.{ends_with}
use qcp.Client.Job.{FileSpec, CopyJobSpec, JobError, try_new}
use qcp.Client.Job.Text.{try_new-eq}
use qcp.Client.Paths.{
  join_remote, split, components, join_os_str, DirEntry, entry, permission_denied, other_error,
  WalkItem, relative_leaf, contents_of, lift_job, walked_jobs,
}

-- A name between separators.
abbrev pub IsName : Str → Type 0
IsName name = (name ≢ []) × Lacks b'/' name

abbrev slash : Str
slash = codes "/"

split-name : (name : Str) → Lacks b'/' name → split b'/' name ≡ name ∷ []
unfolding split
split-name [] h = refl
split-name (c ∷ name) (hc, h) = ground (arith, split-name name h)

split-separator :
    (name s : Str) → Lacks b'/' name → split b'/' (name ++ b'/' ∷ s) ≡ name ∷ split b'/' s
unfolding split
split-separator [] s h = refl
split-separator (c ∷ name) s (hc, h) = ground (arith, split-separator name s h)

-- The separators show where the names were.
split-join :
    (name : Str) (names : List Str)
    → All IsName (name ∷ names)
    → split b'/' (join_os_str slash (name ∷ names)) ≡ name ∷ names
unfolding join_os_str
split-join name [] ((_, lacks), _) = split-name name lacks
split-join name (next ∷ names) ((_, lacks), all) =
    rw (append_assoc name slash (join_os_str slash (next ∷ names))) (
      rw (split-separator name (join_os_str slash (next ∷ names)) lacks, split-join next names all)
        refl)

join-ne-nil : (name : Str) (names : List Str) → IsName name → [] ≢ join_os_str slash (name ∷ names)
unfolding join_os_str
join-ne-nil [] names (ne, lacks) = λ h. ne refl
join-ne-nil (c ∷ name) [] (ne, lacks) = λ h. cc
join-ne-nil (c ∷ name) (next ∷ names) (ne, lacks) = λ h. cc

pub join-injective :
    (xs ys : List Str)
    → All IsName xs
    → All IsName ys
    → join_os_str slash xs ≡ join_os_str slash ys
    → xs ≡ ys
unfolding join_os_str
join-injective [] [] hx hy h = refl
join-injective [] (y ∷ ys) hx (hy, _) h = elim (join-ne-nil y ys hy h) [ ]
join-injective (x ∷ xs) [] (hx, _) hy h = elim (join-ne-nil x xs hx (sym h)) [ ]
join-injective (x ∷ xs) (y ∷ ys) hx hy h =
    let both = ap (split b'/') h in rw (split-join x xs hx, split-join y ys hy) at both

-- What `join_remote` writes between the base and the leaf.
append-cancel : (s t u : Str) → s ++ t ≡ s ++ u → t ≡ u
append-cancel [] t u h = h
append-cancel (c ∷ s) t u h = append-cancel s t u cc

pub join_remote-injective : (base r s : Str) → join_remote base r ≡ join_remote base s → r ≡ s
unfolding join_remote
join_remote-injective [] r s h = h
join_remote-injective (c ∷ base) r s h = elim (Bool-cases (ends_with b'/' (c ∷ base))) [
  | inl e ↦ append-cancel (c ∷ base) r s (rw e at h)
  | inr e ↦ let k = append-cancel (c ∷ base) (b'/' ∷ r) (b'/' ∷ s) (rw e at h) in cc
]

-- An entry of a walk from the root stands as many names below it as its depth says.
abbrev pub IsBelow : Str → DirEntry → List Str → Type 0
IsBelow root e names =
    (components e.path ≡ components root ++ names) × (e.depth ≡ length names) × All IsName names

pub relative_leaf-IsBelow :
    (root : Str) (e : DirEntry) (names : List Str)
    → IsBelow root e names
    → relative_leaf slash e ≡ join_os_str slash names
unfolding relative_leaf
relative_leaf-IsBelow root e names (path, depth, _) =
    let front = components root in
    let left : length (front ++ names) - e.depth ≡ length front =
      omega (arith, depth, length-append front names) in
    rw (path, left, drop-append front names) refl

-- The entries that a walk finds, and whether that is all.
abbrev pub entries_of : List WalkItem → List DirEntry
entries_of [] = []
entries_of (entry e ∷ items) = e ∷ entries_of items
entries_of (permission_denied ∷ items) = entries_of items
entries_of (other_error ∷ items) = entries_of items

pub contents_of-listing :
    (items : List WalkItem) (success : Bool) (listing : List (DirEntry × Str))
    → contents_of slash items ≡ ok (success, listing)
    → listing ≡ List.map (λ e. (e, relative_leaf slash e)) (entries_of items)
unfolding contents_of
contents_of-listing [] success listing h = cc
contents_of-listing (entry e ∷ items) success listing h =
    let (rest, hr, hk) = >>=-eq-ok (contents_of slash items) _ h in
    let same = contents_of-listing items rest.0 rest.1 hr in cc
contents_of-listing (permission_denied ∷ items) success listing h =
    let (rest, hr, hk) = >>=-eq-ok (contents_of slash items) _ h in
    let same = contents_of-listing items rest.0 rest.1 hr in cc
contents_of-listing (other_error ∷ items) success listing h = cc

-- The jobs that copy these entries to these places.
pub record Copies (stem : Str) (listing : List (DirEntry × Str)) (jobs : List CopyJobSpec)
    : Type 0 where
  pub sources : List.map (λ j. j.source.filename) jobs ≡ List.map (λ p. p.0.path) listing
  pub destinations :
      List.map (λ j. j.destination.filename) jobs ≡ List.map (λ p. join_remote stem p.1) listing
  pub directories : List.map (λ j. j.directory) jobs ≡ List.map (λ p. p.0.is_dir) listing

lift_job-eq-ok : (r : Result JobError CopyJobSpec) (j : CopyJobSpec) → lift_job r ≡ ok j → r ≡ ok j
lift_job-eq-ok (ok i) j h = cc
lift_job-eq-ok (err e) j h = cc

module _ (source destination : FileSpec) (stem : Str) (preserve : Bool) where
  pub walked_jobs-Copies :
      (listing : List (DirEntry × Str)) (jobs : List CopyJobSpec)
      → walked_jobs source destination stem preserve listing ≡ ok jobs
      → Copies stem listing jobs
  unfolding walked_jobs
  walked_jobs-Copies [] jobs h =
      let same : [] ≡ jobs = cc in
      subst (Copies stem []) same
        (record { sources = refl; destinations = refl; directories = refl })
  walked_jobs-Copies ((e, leaf) ∷ listing) jobs h =
      let from = record source { filename = e.path } in
      let target = record destination { filename = join_remote stem leaf } in
      let (first, hf, hk) = >>=-eq-ok (lift_job (try_new from target preserve e.is_dir)) _ h in
      let (rest, hr, he) = >>=-eq-ok (walked_jobs source destination stem preserve listing) _ hk in
      let (a, b, c) =
        try_new-eq from target preserve e.is_dir first
          (lift_job-eq-ok (try_new from target preserve e.is_dir) first hf) in
      let more = walked_jobs-Copies listing rest hr in
      let same : first ∷ rest ≡ jobs = cc in
      subst (Copies stem ((e, leaf) ∷ listing)) same (record {
        sources = rw (a, more.sources) refl;
        destinations = rw (b, more.destinations) refl;
        directories = rw (c, more.directories) refl;
      })
