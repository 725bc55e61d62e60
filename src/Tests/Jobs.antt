-- ===== src/Tests/Jobs.antt =====
-- The copy jobs and the transfer loops at concrete inputs.
use qcp.Prelude.{
  All, arith, ℕ, suc, ◌==◌, if◌then◌else◌, ◌≡◌, refl, Bool, true, false, none, some, List, [], ◌∷◌,
  ok, arith,
}
use qcp.Prelude.Text.{Str, codes}
use qcp.Client.Paths.{
  WalkItem, entry, permission_denied, components, dest_stem, recurse_local_source,
}
use qcp.Client.Paths.Copied.{Row, IsRow, Copied, recurse_local_source-Copied}
use qcp.Client.Jobspecs.{CliArgs, jobspecs}
use qcp.Client.Jobspecs.Whole.{Accepted, jobspecs-Accepted}
use qcp.Client.Job.{FileSpec, CopyJobSpec, local_file, unix_path_is_local, display, try_new}
use qcp.Client.Job.Text.{IsPlain}
use qcp.Client.Transfers.{transfer, post, created, Session, Progress, process_file_transfers}
use qcp.Client.Transfers.Order.{Ordered, process_file_transfers-Ordered}

abbrev there : FileSpec
there = record { user_at_host = some (codes "me@host"); filename = codes "a:b" }

there-IsPlain : IsPlain unix_path_is_local there
unfolding display
there-IsPlain = record { unbracketed = refl; foreign = refl; delimited = ground arith }

abbrev put_job : Bool → CopyJobSpec
put_job directory = record {
  source = local_file (codes "f");
  destination = there;
  user_at_host = codes "me@host";
  preserve = true;
  directory = directory;
  mode = none;
}

accepted : try_new (local_file (codes "f")) there true false ≡ ok (put_job false)
unfolding try_new
accepted = refl

-- A remote that counts its streams, and refuses the second.
abbrev flaky : Session ℕ
flaky = record {
  open_stream = λ n. (true, suc n);
  run_job = λ job phase n.
      (if n == 2 then none else some (record { payload_bytes = 10; peak_transfer_rate = n }), n);
  metadata = λ path n. none;
  create_dir_all = λ path n. (created, n);
}

abbrev three_jobs : List CopyJobSpec
three_jobs = put_job true ∷ put_job false ∷ put_job false ∷ []

-- The second request fails, the third is not made, and the directory is finished all the same.
abbrev report : Progress
report = record {
  aggregate_stats = record { payload_bytes = 10; peak_transfer_rate = 1 };
  overall_success = false;
  requests =
      record {
        job = put_job true;
        phase = transfer;
        outcome = some (record { payload_bytes = 10; peak_transfer_rate = 1 });
      }
      ∷ record { job = put_job false; phase = transfer; outcome = none }
      ∷ record {
        job = put_job true;
        phase = post;
        outcome = some (record { payload_bytes = 10; peak_transfer_rate = 3 });
      }
      ∷ [];
}

ran : process_file_transfers flaky three_jobs 0 ≡ ok (report, 3)
unfolding process_file_transfers
ran = refl

process_file_transfers-Ordered_example : Ordered three_jobs report
process_file_transfers-Ordered_example =
    process_file_transfers-Ordered flaky three_jobs 0 3 report ran

-- Two local files for a remote directory.
abbrev two_files : CliArgs
two_files = record {
  paths =
      local_file (codes "a/f")
      ∷ local_file (codes "g")
      ∷ record { user_at_host = some (codes "me@host"); filename = codes "dir" }
      ∷ [];
  recurse = false;
  preserve = true;
}

abbrev sent_to : Str → Str → CopyJobSpec
sent_to from to = record {
  source = local_file from;
  destination = record { user_at_host = some (codes "me@host"); filename = to };
  user_at_host = codes "me@host";
  preserve = true;
  directory = false;
  mode = none;
}

abbrev no_entries : Str → Bool → List WalkItem
no_entries path skip_root = []

two_jobs :
    jobspecs no_entries two_files
    ≡ ok (true, sent_to (codes "a/f") (codes "dir/f") ∷ sent_to (codes "g") (codes "dir/g") ∷ [])
unfolding jobspecs
two_jobs = refl

jobspecs-Accepted_example :
    Accepted two_files.paths
      (sent_to (codes "a/f") (codes "dir/f") ∷ sent_to (codes "g") (codes "dir/g") ∷ [])
jobspecs-Accepted_example = jobspecs-Accepted no_entries two_files true _ two_jobs

-- A local directory goes into a remote one whose name ends in the separator.
abbrev walked : Str → Bool → List WalkItem
walked path skip_root =
    entry (record { path = codes "x/d"; depth = 0; is_dir = true })
    ∷ permission_denied
    ∷ entry (record { path = codes "x/d/s/f"; depth = 2; is_dir = false })
    ∷ []

abbrev walked_job : Str → Str → Bool → CopyJobSpec
walked_job from to directory = record {
  source = local_file from;
  destination = record { user_at_host = some (codes "host"); filename = to };
  user_at_host = codes "host";
  preserve = false;
  directory = directory;
  mode = none;
}

abbrev walked_jobs : List CopyJobSpec
walked_jobs =
    walked_job (codes "x/d") (codes "t/d/") true
    ∷ walked_job (codes "x/d/s/f") (codes "t/d/s/f") false
    ∷ []

abbrev target : FileSpec
target = record { user_at_host = some (codes "host"); filename = codes "t/" }

walked_tree :
    recurse_local_source walked (local_file (codes "x/d")) target false ≡ ok (false, walked_jobs)
unfolding recurse_local_source
walked_tree = refl

abbrev rows : List Row
rows =
    (record { path = codes "x/d"; depth = 0; is_dir = true }, [])
    ∷ (record { path = codes "x/d/s/f"; depth = 2; is_dir = false }, codes "s" ∷ codes "f" ∷ [])
    ∷ []

rows_below : All (IsRow (codes "x/d")) rows
unfolding components
rows_below = (
  (refl, refl, tt),
  ((refl, refl, (((λ e. cc), (ground arith, tt)), (((λ e. cc), (ground arith, tt)), tt))), tt),
)

recurse_local_source-Copied_example : Copied (dest_stem (codes "x/d") (codes "t/")) rows walked_jobs
recurse_local_source-Copied_example =
    recurse_local_source-Copied walked (local_file (codes "x/d")) target false false walked_jobs
      rows refl rows_below (((λ e. cc), tt), (tt, tt)) walked_tree
