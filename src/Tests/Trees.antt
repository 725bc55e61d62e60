-- ===== src/Tests/Trees.antt =====
-- A recursive copy from the remote at a concrete tree.
use mathlib.Core.List
use qcp.Prelude.{ℕ, suc, ◌≡◌, refl, Bool, true, false, none, some, List, [], ◌∷◌, ok, arith}
use qcp.Prelude.Text.{Str, codes}
use qcp.Protocol.Compat.{level, supports}
use qcp.Session.Listing.{ListEntry}
use qcp.Util.FilePath.{push}
use qcp.Client.Job.{CopyJobSpec, local_file}
use qcp.Client.Transfers.{transfer, post, created, Session, Progress, process_file_transfers}
use qcp.Client.Recursive.{Listed, process_job_requests, new_jobs_of, mkdir_mode}
use qcp.Client.Recursive.Places.{Mirror, new_jobs_of-Mirror}
use qcp.Client.Recursive.Whole.{Fetched, process_job_requests-Fetched}
use qcp.Client.Recursive.Total.{process_job_requests-Returns}

abbrev get_tree : CopyJobSpec
get_tree = record {
  source = record { user_at_host = some (codes "host"); filename = codes "a/src" };
  destination = local_file (codes "out");
  user_at_host = codes "host";
  preserve = true;
  directory = false;
  mode = none;
}

abbrev entry : Bool → Str → ListEntry
entry directory name = record { name = name; directory = directory; size = 4; attributes = [] }

abbrev tree : List ListEntry
tree =
    entry true (codes "a/src")
    ∷ entry false (codes "a/src/x")
    ∷ entry true (codes "a/src/sub")
    ∷ entry false (codes "a/src/sub/y")
    ∷ []

abbrev tails : List Str
tails = [] ∷ codes "x" ∷ codes "sub" ∷ codes "sub/y" ∷ []

-- A remote that counts its streams, and a local directory that is there.
abbrev remote : Session ℕ
remote = record {
  open_stream = λ n. (true, suc n);
  run_job = λ job phase n. (some (record { payload_bytes = 4; peak_transfer_rate = n }), n);
  metadata = λ path n. some false;
  create_dir_all = λ path n. (created, n);
}

abbrev lister : CopyJobSpec → ℕ → Listed × ℕ
lister job n = (some (some (record { entries = tree; more_to_come = false })), n)

new_jobs_of-Mirror_example : Mirror none get_tree tree tails
unfolding push
new_jobs_of-Mirror_example =
    new_jobs_of-Mirror none get_tree tree tails refl (refl, (refl, (refl, (refl, tt))))
      (
        ((λ e. cc), ((λ e. cc), ((λ e. cc), tt))),
        (((λ e. ground arith), ((λ e. ground arith), tt)), (((λ e. ground arith), tt), (tt, tt))),
      )

abbrev local : Str → Str → Bool → CopyJobSpec
local from to directory = record {
  source = record { user_at_host = some (codes "host"); filename = from };
  destination = local_file to;
  user_at_host = codes "host";
  preserve = true;
  directory = directory;
  mode = none;
}

abbrev fetched : Progress
fetched = record {
  aggregate_stats = record { payload_bytes = 8; peak_transfer_rate = 3 };
  overall_success = true;
  requests =
      record {
        job = local (codes "a/src/x") (codes "out/src/x") false;
        phase = transfer;
        outcome = some (record { payload_bytes = 4; peak_transfer_rate = 2 });
      }
      ∷ record {
        job = local (codes "a/src/sub/y") (codes "out/src/sub/y") false;
        phase = transfer;
        outcome = some (record { payload_bytes = 4; peak_transfer_rate = 3 });
      }
      ∷ record {
        job = local (codes "a/src/sub") (codes "out/src/sub") true;
        phase = post;
        outcome = some (record { payload_bytes = 4; peak_transfer_rate = 4 });
      }
      ∷ record {
        job = local (codes "a/src") (codes "out/src") true;
        phase = post;
        outcome = some (record { payload_bytes = 4; peak_transfer_rate = 5 });
      }
      ∷ [];
}

ran : process_job_requests remote lister true (some (level 4)) (get_tree ∷ []) 0 ≡ ok (fetched, 5)
unfolding process_job_requests process_file_transfers
ran = refl

process_job_requests-Fetched_example : Fetched remote lister (some (level 4)) get_tree [] 0 fetched
process_job_requests-Fetched_example =
    process_job_requests-Fetched remote lister (some (level 4)) get_tree [] 0 5 fetched (refl, tt)
      ran refl

process_job_requests-Returns_example :
    (r : Progress × ℕ) × (process_job_requests remote lister true (some (level 4)) (get_tree ∷ []) 0
      ≡ ok r)
unfolding mkdir_mode supports
process_job_requests-Returns_example =
    process_job_requests-Returns remote lister (λ n. refl) (λ job n. (_, refl)) (λ dir n. refl) true
      (some (level 4)) get_tree [] 0 none refl refl

-- A file that a missing destination is to become, and a name that climbs out of it.
single :
    List.map
      (λ j. j.destination.filename)
      (new_jobs_of (some (codes "out")) get_tree (entry false (codes "a/src") ∷ []))
    ≡ codes "out" ∷ []
unfolding new_jobs_of
single = refl

climbing :
    List.map
      (λ j. j.destination.filename)
      (new_jobs_of none get_tree (entry false (codes "/../../b") ∷ []))
    ≡ codes "out/src/../../b" ∷ []
unfolding new_jobs_of
climbing = refl
