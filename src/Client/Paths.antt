-- ===== src/Client/Paths.antt =====
-- qcp/src/util/path.rs and qcp/src/util/dirwalk.rs, for the separator of Unix. What the walkdir crate
-- finds is a parameter, and messages for the user are left out. Paths are text.
pub mod Copied
pub mod Tree
use qcp.Prelude.{
  ℕ, ◌-◌, Bool, true, false, ◌||◌, Option, none, some, List, [], ◌∷◌, ◌++◌, ◌==◌, if◌then◌else◌,
  get_or, length, drop, Result, ok, err, ◌>>=◌,
}
use qcp.Prelude.Text.{Str, codes, str_eq}
use qcp.Util.FilePath.{starts_absolute, ends_with, file_name, push}
use qcp.Client.Job.{FileSpec, CopyJobSpec, JobError, try_new, is_remote}

abbrev pub is_empty : {A : Type 0} → List A → Bool
is_empty [] = true
is_empty (x ∷ xs) = false

unfoldable pub basename_of : Str → Option Str
unfolding file_name
basename_of path = elim (file_name path) [
  | none ↦ none
  | some filename ↦ if is_empty filename then none else some filename
]

unfoldable pub join_local : Str → Str → Str
unfolding push
join_local base leaf = if is_empty base then leaf else push base leaf

-- Join a remote path using forward slashes
unfoldable pub join_remote : Str → Str → Str
unfolding ends_with
join_remote base leaf =
    if is_empty base
    then leaf
    else if ends_with b'/' base
    then base ++ leaf
    else base ++ b'/' ∷ leaf

-- `str::split` at a character.
abbrev pub add_front : ℕ → List Str → List Str
add_front c [] = (c ∷ []) ∷ []
add_front c (part ∷ parts) = (c ∷ part) ∷ parts

unfoldable pub split : ℕ → Str → List Str
split sep [] = [] ∷ []
split sep (c ∷ s) = let later = split sep s in if c == sep then [] ∷ later else add_front c later

-- `Path::components`: the parts, without empty ones and without `.` except in front.
unfoldable pub proper : List Str → List Str
proper [] = []
proper (part ∷ parts) =
    let rest = proper parts in
    if is_empty part || str_eq part (codes ".") then rest else part ∷ rest

abbrev front : List Str → List Str
unfolding proper
front [] = []
front (part ∷ parts) =
    if str_eq part (codes ".") then part ∷ proper parts else proper (part ∷ parts)

unfoldable pub components : Str → List Str
unfolding split proper
components path =
    if starts_absolute path then codes "/" ∷ proper (split b'/' path) else front (split b'/' path)

-- `join_os_str`
unfoldable pub join_os_str : Str → List Str → Str
join_os_str separator [] = []
join_os_str separator (item ∷ []) = item
join_os_str separator (item ∷ next ∷ items) =
    item ++ separator ++ join_os_str separator (next ∷ items)

-- What walkdir gives, in its order: an entry with its depth, or an error.
pub record DirEntry : Type 0 where
  pub path : Str
  pub depth : ℕ
  pub is_dir : Bool

pub data WalkItem : Type 0 where
  entry : DirEntry → WalkItem
  permission_denied other_error : WalkItem

pub data WalkError : Type 0 where
  walk_failed destination_must_be_remote : WalkError
  job : JobError → WalkError

-- The path of an entry relative to the root of the walk.
unfoldable pub relative_leaf : Str → DirEntry → Str
unfolding components join_os_str
relative_leaf separator e =
    let parts = components e.path in join_os_str separator (drop (length parts - e.depth) parts)

unfoldable pub contents_of : Str → List WalkItem → Result WalkError (Bool × List (DirEntry × Str))
unfolding relative_leaf
contents_of separator [] = ok (true, [])
contents_of separator (entry e ∷ items) = contents_of separator items >>= λ (success, output).
    ok (success, (e, relative_leaf separator e) ∷ output)
contents_of separator (permission_denied ∷ items) =
    contents_of separator items >>= λ (success, output). ok (false, output)
contents_of separator (other_error ∷ items) = err walk_failed

-- The last part that is not empty.
unfoldable pub last_part : List Str → Option Str
last_part [] = none
last_part (part ∷ parts) =
    let later = last_part parts in
    elim later [ none ↦ if is_empty part then none else some part | some p ↦ some p ]

unfoldable pub dest_stem : Str → Str → Str
unfolding ends_with last_part split
dest_stem source destination =
    if ends_with b'/' destination
    then destination ++ get_or (last_part (split b'/' source)) []
    else destination

abbrev pub lift_job : Result JobError CopyJobSpec → Result WalkError CopyJobSpec
lift_job (ok j) = ok j
lift_job (err e) = err (job e)

unfoldable pub walked_jobs :
    FileSpec → FileSpec → Str → Bool → List (DirEntry × Str) → Result WalkError (List CopyJobSpec)
unfolding join_remote try_new
walked_jobs source destination stem preserve [] = ok []
walked_jobs source destination stem preserve ((e, leaf) ∷ listing) =
    lift_job (
      try_new (record source { filename = e.path })
        (record destination { filename = join_remote stem leaf }) preserve e.is_dir)
    >>= λ first. walked_jobs source destination stem preserve listing >>= λ rest. ok (first ∷ rest)

-- The walk skips the root for a bare host.
unfoldable pub recurse_local_source :
    (Str → Bool → List WalkItem)
    → FileSpec
    → FileSpec
    → Bool
    → Result WalkError (Bool × List CopyJobSpec)
unfolding contents_of dest_stem walked_jobs
recurse_local_source walk source destination preserve =
    if is_remote destination
    then (contents_of (codes "/") (walk source.filename (is_empty destination.filename))
        >>= λ (success, listing).
            walked_jobs source destination (dest_stem source.filename destination.filename) preserve
              listing
            >>= λ jobs. ok (success, jobs))
    else err destination_must_be_remote
