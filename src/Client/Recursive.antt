-- ===== src/Client/Recursive.antt =====
-- qcp/src/client/main_loop.rs: `process_recursive_get` and `process_job_requests`, with
-- `add_pathsep_if_needed` of qcp/src/util/path.rs, for the separator of Unix. A job run in the
-- phase before the transfer is an operation of its own, since its answer is a listing. What the
-- user is told is left out.
pub mod Places
pub mod Total
pub mod Whole
use qcp.Prelude.{
  ℕ, ◌%◌, ◌^◌, Bool, true, false, not, ◌&&◌, ◌||◌, Option, none, some, List, [], ◌∷◌, ◌++◌, ltb,
  ◌==◌, if◌then◌else◌, get_or, length, Result, ok, err, ◌>>=◌,
}
use qcp.Prelude.Text.{Str}
use qcp.Protocol.Compat.{Compatibility, level, supports, mkdir_setmeta_ls}
use qcp.Protocol.Variant.{coerce_unsigned}
use qcp.Protocol.DataTag.{find_tag}
use qcp.Session.Attributes.{MetadataAttr, mode_bits, metadata_tag}
use qcp.Session.Listing.{ListEntry, ListData}
use qcp.Util.FilePath.{file_name, ends_with}
use qcp.Client.Job.{CopyJobSpec}
use qcp.Client.Transfers.{
  Session, Fatal, Progress, Created, created, already_exists, failed, first_is_remote,
  process_file_transfers,
}

-- `str::strip_prefix`
unfoldable pub strip_prefix : Str → Str → Option Str
strip_prefix [] s = some s
strip_prefix (p ∷ prefix) [] = none
strip_prefix (p ∷ prefix) (c ∷ s) = if c == p then strip_prefix prefix s else none

-- `str::trim_start_matches` at the separator.
unfoldable pub trim_separators : Str → Str
trim_separators [] = []
trim_separators (c ∷ s) = let rest = trim_separators s in if c == b'/' then rest else c ∷ s

abbrev pub is_empty : {A : Type 0} → List A → Bool
is_empty [] = true
is_empty (x ∷ xs) = false

unfoldable pub add_pathsep_if_needed : Str → Str
unfolding ends_with
add_pathsep_if_needed path =
    if not (is_empty path) && not (ends_with b'/' path) then path ++ b'/' ∷ [] else path

-- A part of the destination that is there only if it has a character.
unfoldable pub extend : Str → Str → Str
unfolding add_pathsep_if_needed
extend destfile part = if is_empty part then destfile else add_pathsep_if_needed destfile ++ part

-- The name that an entry has under the source of its job.
unfoldable pub leaf_of : Str → Str → Str
unfolding strip_prefix trim_separators
leaf_of source name = trim_separators (get_or (strip_prefix source name) name)

-- Where the source of a job comes to stand: in the mode for a single source that mode's directory
-- is the destination itself.
unfoldable pub base_of : Option Str → CopyJobSpec → Str
unfolding extend file_name
base_of (some dir_to_create) job = job.destination.filename
base_of none job = extend job.destination.filename (get_or (file_name job.source.filename) [])

unfoldable pub destination_of : Option Str → CopyJobSpec → Str → Str
unfolding base_of extend leaf_of
destination_of mode job name = extend (base_of mode job) (leaf_of job.source.filename name)

unfoldable pub new_job : Option Str → CopyJobSpec → ListEntry → CopyJobSpec
unfolding destination_of find_tag coerce_unsigned
new_job mode job item = record {
  source = record { user_at_host = job.source.user_at_host; filename = item.name };
  destination = record {
    user_at_host = job.destination.user_at_host;
    filename = destination_of mode job item.name;
  };
  user_at_host = job.user_at_host;
  preserve = job.preserve;
  directory = item.directory;
  mode = elim (find_tag mode_bits item.attributes) [
    | none ↦ none
    | some i ↦ some (coerce_unsigned i % 2 ^ 32)
  ];
}

unfoldable pub new_jobs_of : Option Str → CopyJobSpec → List ListEntry → List CopyJobSpec
unfolding new_job
new_jobs_of mode job [] = []
new_jobs_of mode job (item ∷ entries) = new_job mode job item ∷ new_jobs_of mode job entries

-- The errors of a recursive copy from the remote; the last is that of the transfer loops.
pub data RecursiveError : Type 0 where
  not_supported empty_jobs_list destination_is_file destination_missing : RecursiveError
  no_list_stream list_failed no_list_data mkdir_failed : RecursiveError
  fatal : Fatal → RecursiveError

-- The decision on `single_source_mkdir_mode`.
unfoldable pub mkdir_mode :
    Option Bool → Str → List CopyJobSpec → Result RecursiveError (Option Str)
mkdir_mode (some is_file) dir jobs = if is_file then err destination_is_file else ok none
mkdir_mode none dir jobs = if length jobs == 1 then ok (some dir) else err destination_missing

-- What a job ends in before the transfer: an error, or an answer that should hold a listing.
abbrev pub Listed : Type 0
Listed = Option (Option ListData)

unfoldable pub listed : Listed → Result RecursiveError (List ListEntry)
listed none = err list_failed
listed (some none) = err no_list_data
listed (some (some contents)) = ok contents.entries

-- Whether the directory of the mode for a single source is to be made.
abbrev pub to_create : Option Str → List CopyJobSpec → Option Str
to_create none jobs = none
to_create (some dir) [] = none
to_create (some dir) (job ∷ jobs) = if job.directory then some dir else none

abbrev pub lift_fatal : {A : Type 0} → Result Fatal A → Result RecursiveError A
lift_fatal (ok a) = ok a
lift_fatal (err e) = err (fatal e)

module _ {W : Type 0} (session : Session W) (run_pre : CopyJobSpec → W → Listed × W) where
  -- PRE-TRANSFER: the remote enumerates the files of every job.
  unfoldable pub pre_phase :
      Option Str → List CopyJobSpec → W → Result RecursiveError (List CopyJobSpec × W)
  unfolding listed new_jobs_of
  pre_phase mode [] w = ok ([], w)
  pre_phase mode (job ∷ jobs) w =
      let (opened, between) = session.open_stream w in
      let (result, after) = run_pre job between in
      let more = pre_phase mode jobs after in
      (if opened then listed result else err no_list_stream) >>= λ entries.
      more >>= λ (rest, last). ok (new_jobs_of mode job entries ++ rest, last)

  unfoldable pub create_root : Option Str → W → Result RecursiveError W
  create_root none w = ok w
  create_root (some dir) w = elim (session.create_dir_all dir w).0 [
    | created ↦ ok (session.create_dir_all dir w).1
    | already_exists ↦ err mkdir_failed
    | failed ↦ err mkdir_failed
  ]

  unfoldable pub fetch_listed :
      Option Str → List CopyJobSpec → W → Result RecursiveError (Progress × W)
  unfolding pre_phase create_root
  fetch_listed mode jobs_in w = pre_phase mode jobs_in w >>= λ (new_jobs, listed_world).
      create_root (to_create mode new_jobs) listed_world >>= λ ready.
      lift_fatal (process_file_transfers session new_jobs ready)

  unfoldable pub process_recursive_get :
      Option Compatibility → List CopyJobSpec → W → Result RecursiveError (Progress × W)
  unfolding supports mkdir_mode fetch_listed
  process_recursive_get negotiated [] w =
      if supports (get_or negotiated Compatibility.unknown) mkdir_setmeta_ls
      then err empty_jobs_list
      else err not_supported
  process_recursive_get negotiated (first ∷ jobs) w =
      if supports (get_or negotiated Compatibility.unknown) mkdir_setmeta_ls
      then (mkdir_mode (session.metadata first.destination.filename w) first.destination.filename
            (first ∷ jobs)
          >>= λ mode. fetch_listed mode (first ∷ jobs) w)
      else err not_supported

  unfoldable pub process_job_requests :
      Bool → Option Compatibility → List CopyJobSpec → W → Result RecursiveError (Progress × W)
  unfolding process_recursive_get
  process_job_requests do_recurse negotiated jobs_in w =
      if not (first_is_remote jobs_in) && do_recurse
      then process_recursive_get negotiated jobs_in w
      else lift_fatal (process_file_transfers session jobs_in w)
