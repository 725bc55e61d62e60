-- ===== src/Client/Paths/Copied.antt =====
-- A recursive copy of a local directory to the remote, as the jobs that it becomes.
use mathlib.Core.List
use qcp.Prelude.{
  ◌≡◌, refl, Bool, List, [], ◌∷◌, ok, >>=-eq-ok, All, Distinct, Distinct-map, Bool-cases, inl, inr,
}
use qcp.Prelude.Text.{Str, codes}
use qcp.Client.Job.{FileSpec, CopyJobSpec, is_remote}
use qcp.Client.Paths.{
  is_empty, join_remote, join_os_str, DirEntry, WalkItem, relative_leaf, contents_of, dest_stem,
  walked_jobs, recurse_local_source,
}
use qcp.Client.Paths.Tree.{
  IsName, IsBelow, join-injective, join_remote-injective, relative_leaf-IsBelow, entries_of,
  contents_of-listing, Copies, walked_jobs-Copies,
}

-- An entry, and the names from the root of the walk to it.
abbrev pub Row : Type 0
Row = DirEntry × List Str

abbrev pub IsRow : Str → Row → Type 0
IsRow root row = IsBelow root row.0 row.1

-- The place of an entry on the remote.
abbrev pub place : Str → List Str → Str
place stem names = join_remote stem (join_os_str (codes "/") names)

place-injective :
    (stem : Str) (xs ys : List Str)
    → All IsName xs
    → All IsName ys
    → place stem xs ≡ place stem ys
    → xs ≡ ys
place-injective stem xs ys hx hy h =
    join-injective xs ys hx hy
      (join_remote-injective stem (join_os_str (codes "/") xs) (join_os_str (codes "/") ys) h)

-- What was walked, and what the jobs make of it.
pub record Copied (stem : Str) (rows : List Row) (jobs : List CopyJobSpec) : Type 0 where
  pub sources : List.map (λ j. j.source.filename) jobs ≡ List.map (λ r. r.0.path) rows
  pub destinations :
      List.map (λ j. j.destination.filename) jobs ≡ List.map (place stem) (List.map (λ r. r.1) rows)
  pub directories : List.map (λ j. j.directory) jobs ≡ List.map (λ r. r.0.is_dir) rows
  pub apart : Distinct (List.map (λ j. j.destination.filename) jobs)

abbrev listed : List Row → List (DirEntry × Str)
listed rows = List.map (λ r. (r.0, join_os_str (codes "/") r.1)) rows

leaves-listed :
    (root : Str) (rows : List Row)
    → All (IsRow root) rows
    → List.map (λ e. (e, relative_leaf (codes "/") e)) (List.map (λ r. r.0) rows) ≡ listed rows
leaves-listed root [] all = refl
leaves-listed root ((e, names) ∷ rows) (h, all) =
    rw (relative_leaf-IsBelow root e names h, leaves-listed root rows all) refl

places-listed :
    (stem : Str) (rows : List Row)
    → List.map (λ p. join_remote stem p.1) (listed rows)
      ≡ List.map (place stem) (List.map (λ r. r.1) rows)
places-listed stem [] = refl
places-listed stem (r ∷ rows) = rw (places-listed stem rows) refl

paths-listed :
    (rows : List Row) → List.map (λ p. p.0.path) (listed rows) ≡ List.map (λ r. r.0.path) rows
paths-listed [] = refl
paths-listed (r ∷ rows) = rw (paths-listed rows) refl

kinds-listed :
    (rows : List Row) → List.map (λ p. p.0.is_dir) (listed rows) ≡ List.map (λ r. r.0.is_dir) rows
kinds-listed [] = refl
kinds-listed (r ∷ rows) = rw (kinds-listed rows) refl

names-IsName :
    (root : Str) (rows : List Row)
    → All (IsRow root) rows
    → All (All IsName) (List.map (λ r. r.1) rows)
names-IsName root [] all = tt
names-IsName root (r ∷ rows) ((_, _, named), all) = (named, names-IsName root rows all)

copied :
    (root stem : Str) (rows : List Row) (jobs : List CopyJobSpec)
    → All (IsRow root) rows
    → Distinct (List.map (λ r. r.1) rows)
    → Copies stem (listed rows) jobs
    → Copied stem rows jobs
copied root stem rows jobs all different c =
    let placed = rw (places-listed stem rows) at c.destinations in
    record {
      sources = rw (c.sources, paths-listed rows) refl;
      destinations = placed;
      directories = rw (c.directories, kinds-listed rows) refl;
      apart = rw placed (
          Distinct-map (place stem) (All IsName) (place-injective stem) (List.map (λ r. r.1) rows)
            (names-IsName root rows all) different);
    }

-- Where the entries of a walk stand below the source by different names, as many as their depths
-- say, and the walk becomes jobs, the jobs copy every entry that was found, in order and with its
-- kind, to its names below the stem of the destination, and no two of them to the same place.
pub recurse_local_source-Copied :
    (walk : Str → Bool → List WalkItem) (source destination : FileSpec) (preserve success : Bool)
    (jobs : List CopyJobSpec) (rows : List Row)
    → entries_of (walk source.filename (is_empty destination.filename)) ≡ List.map (λ r. r.0) rows
    → All (IsRow source.filename) rows
    → Distinct (List.map (λ r. r.1) rows)
    → recurse_local_source walk source destination preserve ≡ ok (success, jobs)
    → Copied (dest_stem source.filename destination.filename) rows jobs
unfolding recurse_local_source
recurse_local_source-Copied walk source destination preserve success jobs rows found all different
      h =
    elim (Bool-cases (is_remote destination)) [
      | inl e ↦
          let items = walk source.filename (is_empty destination.filename) in
          let stem = dest_stem source.filename destination.filename in
          let (read, hc, hk) = >>=-eq-ok (contents_of (codes "/") items) _ (rw e at h) in
          let (made, hm, he) =
            >>=-eq-ok (walked_jobs source destination stem preserve read.1) _ hk in
          let same : made ≡ jobs = cc in
          let listing = contents_of-listing items read.0 read.1 hc in
          let copies = walked_jobs-Copies source destination stem preserve read.1 made hm in
          let rest = rw (listing, found, leaves-listed source.filename rows all, same) at copies in
          copied source.filename stem rows jobs all different rest
      | inr e ↦ let k = rw e at h in cc
    ]
