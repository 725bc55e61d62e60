-- ===== src/Client/Jobspecs.antt =====
-- qcp/src/cli/args.rs: the copy jobs that the paths of the command line ask for, and the host that
-- they name.
pub mod Hosts
pub mod Planned
pub mod Users
pub mod Whole
use qcp.Prelude.{
  ℕ, suc, Bool, true, false, not, ◌&&◌, ◌||◌, Option, none, some, List, [], ◌∷◌, ◌++◌, ltb, leb,
  if◌then◌else◌, length, Result, ok, err, ensure, ◌>>=◌, ◌>>◌, any,
}
use qcp.Prelude.Text.{Str, str_eq}
use qcp.Client.Job.{FileSpec, CopyJobSpec, JobError, hostname_of, username_of, is_remote, try_new}
use qcp.Client.Paths.{
  WalkItem, WalkError, basename_of, join_local, join_remote, recurse_local_source,
}

pub record CliArgs : Type 0 where
  pub paths : List FileSpec
  pub recurse : Bool
  pub preserve : Bool

pub data JobspecsError : Type 0 where
  paths_required several_users several_hosts several_sides none_remote no_filename : JobspecsError
  walk : WalkError → JobspecsError
  job : JobError → JobspecsError

unfoldable pub hostname : FileSpec → Option Str
unfolding hostname_of
hostname f = elim f.user_at_host [ none ↦ none | some s ↦ some (hostname_of s) ]

unfoldable pub remote_user : FileSpec → Option Str
unfolding username_of
remote_user f = elim f.user_at_host [ none ↦ none | some s ↦ username_of s ]

-- The paths before the last, and the last.
unfoldable pub split_last : FileSpec → List FileSpec → List FileSpec × FileSpec
split_last f [] = ([], f)
split_last f (g ∷ fs) = let (sources, destination) = split_last g fs in (f ∷ sources, destination)

unfoldable pub sources_and_destination :
    List FileSpec → Result JobspecsError (List FileSpec × FileSpec)
unfolding split_last
sources_and_destination [] = err paths_required
sources_and_destination (f ∷ []) = err paths_required
sources_and_destination (f ∷ g ∷ fs) = ok (split_last f (g ∷ fs))

-- `HashSet::insert`
abbrev pub insert : Str → List Str → List Str
insert host hosts = if any (str_eq host) hosts then hosts else host ∷ hosts

unfoldable pub note_host : Option Str → List Str → List Str
note_host none hosts = hosts
note_host (some host) hosts = insert host hosts

unfoldable pub note_user : Option Str → Option Str → Result JobspecsError (Option Str)
note_user none user = ok user
note_user (some name) none = ok (some name)
note_user (some name) (some existing) =
    if str_eq existing name then ok (some existing) else err several_users

-- The loop over all paths.
unfoldable pub scan_remotes :
    List FileSpec → List Str → Option Str → Result JobspecsError (List Str)
unfolding note_host note_user hostname remote_user
scan_remotes [] hosts user = ok hosts
scan_remotes (spec ∷ specs) hosts user = note_user (remote_user spec) user >>= λ noted.
    scan_remotes specs (note_host (hostname spec) hosts) noted

abbrev pub all_sources : Bool → List FileSpec → Bool
all_sources remote [] = true
all_sources true (f ∷ fs) = is_remote f && all_sources true fs
all_sources false (f ∷ fs) = not (is_remote f) && all_sources false fs

-- The correct number of remotes.
unfoldable pub check_sides : List FileSpec → FileSpec → Result JobspecsError (Unit {0})
check_sides sources destination =
    if is_remote destination
    then ensure (all_sources false sources) several_sides
    else (ensure (any is_remote sources) none_remote
        >> ensure (all_sources true sources) several_sides)

abbrev pub join_fn : Bool → Str → Str → Str
join_fn destination_is_remote = if destination_is_remote then join_remote else join_local

-- The file name of a job's destination: with a leaf if there are several sources.
unfoldable pub dest_filename : Bool → FileSpec → FileSpec → Result JobspecsError Str
unfolding basename_of join_local join_remote
dest_filename leaf_needed source destination =
    if leaf_needed
    then elim (basename_of source.filename) [
      | none ↦ err no_filename
      | some leaf ↦ ok (join_fn (is_remote destination) destination.filename leaf)
    ]
    else ok destination.filename

abbrev pub lift_job : Result JobError CopyJobSpec → Result JobspecsError CopyJobSpec
lift_job (ok j) = ok j
lift_job (err e) = err (job e)

unfoldable pub plain_jobs :
    Bool → Bool → FileSpec → List FileSpec → Result JobspecsError (List CopyJobSpec)
unfolding dest_filename try_new
plain_jobs leaf_needed preserve destination [] = ok []
plain_jobs leaf_needed preserve destination (source ∷ sources) =
    dest_filename leaf_needed source destination >>= λ filename.
    lift_job (try_new source (record destination { filename = filename }) preserve false)
    >>= λ first. plain_jobs leaf_needed preserve destination sources >>= λ rest. ok (first ∷ rest)

abbrev pub lift_walk : {A : Type 0} → Result WalkError A → Result JobspecsError A
lift_walk (ok a) = ok a
lift_walk (err e) = err (walk e)

module _ (walk_dir : Str → Bool → List WalkItem) where
  unfoldable pub walk_sources :
      Bool → FileSpec → List FileSpec → Result JobspecsError (Bool × List CopyJobSpec)
  unfolding recurse_local_source
  walk_sources preserve destination [] = ok (true, [])
  walk_sources preserve destination (source ∷ sources) =
      lift_walk (recurse_local_source walk_dir source destination preserve) >>= λ (success, jobs).
      walk_sources preserve destination sources >>= λ (more, rest).
      ok (success && more, jobs ++ rest)

  unfoldable pub jobs_of :
      CliArgs → List FileSpec → FileSpec → Result JobspecsError (Bool × List CopyJobSpec)
  unfolding walk_sources plain_jobs
  jobs_of args sources destination =
      if args.recurse && is_remote destination
      then walk_sources args.preserve destination sources
      else (plain_jobs (ltb 1 (length sources) && (not args.recurse || is_remote destination))
            args.preserve destination sources
          >>= λ jobs. ok (true, jobs))

  -- Whether all went well, and the jobs.
  unfoldable pub jobspecs : CliArgs → Result JobspecsError (Bool × List CopyJobSpec)
  unfolding sources_and_destination scan_remotes check_sides jobs_of
  jobspecs args = do
    (sources, destination) ← sources_and_destination args.paths
    hosts ← scan_remotes (sources ++ destination ∷ []) [] none
    ensure (leb (length hosts) 1) several_hosts
    check_sides sources destination
    jobs_of args sources destination

-- The paths that are left, with what was found among those before.
unfoldable pub lossy : List FileSpec → Option Str → Bool → Result JobspecsError (Option Str)
unfolding hostname
lossy [] host in_sources = ok host
lossy (spec ∷ specs) host in_sources = elim (hostname spec) [
  | none ↦ lossy specs host in_sources
  | some h ↦
      ensure (elim host [ none ↦ true | some existing ↦ str_eq existing h ]) several_hosts
      >> elim specs [
        | [] ↦ ensure (not in_sources) several_sides >> ok (some h)
        | next ∷ rest ↦ lossy specs (some h) true
      ]
]

unfoldable pub remote_host_lossy : List FileSpec → Result JobspecsError (Option Str)
unfolding lossy
remote_host_lossy paths = lossy paths none false

-- The loop of `remote_user_as_config`: two different users leave none.
unfoldable pub user_of : List FileSpec → Option Str → Option Str
unfolding remote_user
user_of [] user = user
user_of (spec ∷ specs) user = elim (remote_user spec) [
  | none ↦ user_of specs user
  | some name ↦ elim user [
    | none ↦ user_of specs (some name)
    | some existing ↦ if str_eq existing name then user_of specs (some existing) else none
  ]
]

-- The user that the configuration gets from the paths.
unfoldable pub remote_user_as_config : List FileSpec → Option Str
unfolding user_of
remote_user_as_config paths = user_of paths none
