-- ===== src/Client/Recursive/Whole.antt =====
-- A recursive copy from the remote as a whole: what it asks for, lists and transfers.
use mathlib.Core.List
use mathlib.Core.Path.{subst}
use qcp.Prelude.{
  ◌%◌, ◌^◌, ◌≡◌, refl, append-nil, true, false, not, Option, none, some, List, [], ◌∷◌, ◌++◌,
  get_or, Result, ok, err, >>=-eq-ok, All, All-append, Bool-cases, inl, inr,
}
use qcp.Prelude.Text.{Str}
use qcp.Protocol.Compat.{Compatibility, supports, mkdir_setmeta_ls}
use qcp.Session.Listing.{ListEntry, ListData}
use qcp.Client.Job.{CopyJobSpec, is_remote}
use qcp.Client.Transfers.{
  Request, Session, Fatal, Progress, first_is_remote, process_file_transfers,
}
use qcp.Client.Transfers.Account.{filter, total_payload, Answered}
use qcp.Client.Transfers.Order.{post_jobs, Ordered, process_file_transfers-Ordered}
use qcp.Client.Recursive.{
  Listed, listed, new_jobs_of, new_job, mkdir_mode, to_create, lift_fatal, pre_phase, create_root,
  fetch_listed, process_recursive_get, process_job_requests,
}

abbrev pub IsLocal : CopyJobSpec → Type 0
IsLocal job = is_remote job.destination ≡ false

module _ {W : Type 0} (session : Session W) (run_pre : CopyJobSpec → W → Listed × W) where
  -- The new jobs are those of the listings, one listing for each job that was asked for.
  pub data Enumerated (mode : Option Str) : List CopyJobSpec → List CopyJobSpec → Type 0 where
    nothing : Enumerated mode [] []
    more :
        {job : CopyJobSpec} {jobs rest : List CopyJobSpec} (contents : ListData) (v : W)
        → (run_pre job v).0 ≡ some (some contents)
        → Enumerated mode jobs rest
        → Enumerated mode (job ∷ jobs) (new_jobs_of mode job contents.entries ++ rest)

  answered :
      (o : Listed) (entries : List ListEntry)
      → listed o ≡ ok entries
      → (contents : ListData) × (o ≡ some (some contents)) × (contents.entries ≡ entries)
  unfolding listed
  answered none entries h = cc
  answered (some none) entries h = cc
  answered (some (some contents)) entries h = (contents, refl, cc)

  pre_phase-Enumerated :
      (mode : Option Str) (jobs : List CopyJobSpec) (w after : W) (found : List CopyJobSpec)
      → pre_phase session run_pre mode jobs w ≡ ok (found, after)
      → Enumerated mode jobs found
  unfolding pre_phase
  pre_phase-Enumerated mode [] w after found h =
      let same : [] ≡ found = cc in subst (Enumerated mode []) same nothing
  pre_phase-Enumerated mode (job ∷ jobs) w after found h =
      let between = (session.open_stream w).1 in
      elim (Bool-cases (session.open_stream w).0) [
        | inl opened ↦
            let (entries, he, hk) = >>=-eq-ok (listed (run_pre job between).0) _ (rw opened at h) in
            let (r, hr, hj) =
              >>=-eq-ok (pre_phase session run_pre mode jobs (run_pre job between).1) _ hk in
            let (contents, answer, holds) = answered (run_pre job between).0 entries he in
            let same : new_jobs_of mode job contents.entries ++ r.0 ≡ found = cc in
            subst (Enumerated mode (job ∷ jobs)) same (
              more contents between answer
                (pre_phase-Enumerated mode jobs (run_pre job between).1 r.1 r.0 hr))
        | inr closed ↦ let k = rw closed at h in cc
      ]

-- Every new job goes where the jobs of the user go.
new_jobs_of-IsLocal :
    (mode : Option Str) (job : CopyJobSpec) (entries : List ListEntry)
    → IsLocal job
    → All IsLocal (new_jobs_of mode job entries)
unfolding new_jobs_of new_job
new_jobs_of-IsLocal mode job [] h = tt
new_jobs_of-IsLocal mode job (item ∷ entries) h = (h, new_jobs_of-IsLocal mode job entries h)

first_is_remote-IsLocal :
    (jobs : List CopyJobSpec) → All IsLocal jobs → first_is_remote jobs ≡ false
first_is_remote-IsLocal [] all = refl
first_is_remote-IsLocal (job ∷ jobs) (h, all) = h

lift_fatal-eq-ok : {A : Type 0} (r : Result Fatal A) (a : A) → lift_fatal r ≡ ok a → r ≡ ok a
lift_fatal-eq-ok (ok b) a h = cc
lift_fatal-eq-ok (err e) a h = cc

module _ {W : Type 0} (session : Session W) (run_pre : CopyJobSpec → W → Listed × W) where
  Enumerated-IsLocal :
      (mode : Option Str) (jobs new_jobs : List CopyJobSpec)
      → Enumerated session run_pre mode jobs new_jobs
      → All IsLocal jobs
      → All IsLocal new_jobs
  Enumerated-IsLocal mode _ _ nothing all = tt
  Enumerated-IsLocal mode (job ∷ jobs) _ (more contents v e rest) (h, all) =
      All-append IsLocal (new_jobs_of mode job contents.entries) _
        (new_jobs_of-IsLocal mode job contents.entries h) (Enumerated-IsLocal mode jobs _ rest all)

  -- What a recursive copy from the remote that reports success has done.
  pub record Fetched (negotiated : Option Compatibility) (first : CopyJobSpec)
      (jobs : List CopyJobSpec) (w : W) (q : Progress) : Type 0 where
    pub mode : Option Str
    pub new_jobs : List CopyJobSpec
    pub transfers : List Request
    pub posts : List Request
    pub supported : supports (get_or negotiated Compatibility.unknown) mkdir_setmeta_ls ≡ true
    pub decided :
        mkdir_mode
          (session.metadata first.destination.filename w)
          first.destination.filename
          (first ∷ jobs)
        ≡ ok mode
    pub enumerated : Enumerated session run_pre mode (first ∷ jobs) new_jobs
    pub recorded : q.requests ≡ transfers ++ posts
    pub files : List.map (λ r. r.job) transfers ≡ filter (λ job. not job.directory) new_jobs
    pub answered_files : All Answered transfers
    pub finished : List.map (λ r. r.job) posts ≡ post_jobs new_jobs
    pub answered_posts : All Answered posts
    pub payload_bytes : q.aggregate_stats.payload_bytes ≡ total_payload transfers % 2 ^ 64

  fetch_listed-split :
      (mode : Option Str) (jobs : List CopyJobSpec) (w after : W) (q : Progress)
      → fetch_listed session run_pre mode jobs w ≡ ok (q, after)
      → (new_jobs : List CopyJobSpec) × Enumerated session run_pre mode jobs new_jobs
        × Ordered new_jobs q
  unfolding fetch_listed
  fetch_listed-split mode jobs w after q h =
      let (r, hr, hk) = >>=-eq-ok (pre_phase session run_pre mode jobs w) _ h in
      let (ready, _, hj) = >>=-eq-ok (create_root session run_pre (to_create mode r.0) r.1) _ hk in
      let ran = lift_fatal-eq-ok (process_file_transfers session r.0 ready) (q, after) hj in
      (
        r.0,
        pre_phase-Enumerated session run_pre mode jobs w r.1 r.0 hr,
        process_file_transfers-Ordered session r.0 ready after q ran,
      )

  fetched :
      (negotiated : Option Compatibility) (first : CopyJobSpec) (jobs : List CopyJobSpec) (w : W)
      (q : Progress) (mode : Option Str) (new_jobs : List CopyJobSpec)
      → supports (get_or negotiated Compatibility.unknown) mkdir_setmeta_ls ≡ true
      → mkdir_mode
          (session.metadata first.destination.filename w)
          first.destination.filename
          (first ∷ jobs)
        ≡ ok mode
      → Enumerated session run_pre mode (first ∷ jobs) new_jobs
      → Ordered new_jobs q
      → All IsLocal new_jobs
      → q.overall_success ≡ true
      → Fetched negotiated first jobs w q
  fetched negotiated first jobs w q mode new_jobs e hm found ordered local success =
      let (nothing_left, files, posts) = ordered.success success in
      let here = first_is_remote-IsLocal new_jobs local in
      let planned = rw (nothing_left, append-nil, here) at ordered.planned in
      record {
        mode = mode;
        new_jobs = new_jobs;
        transfers = ordered.transfers;
        posts = ordered.posts;
        supported = e;
        decided = hm;
        enumerated = found;
        recorded = ordered.recorded;
        files = planned;
        answered_files = files;
        finished = ordered.finished;
        answered_posts = posts;
        payload_bytes = ordered.payload_bytes;
      }

  -- If the user asks for a recursive copy to local destinations and the run reports success, then
  -- the agreed level has the feature and the first destination allowed the run; the remote has
  -- listed every job; the requests are first the transfers of all listed entries that are no
  -- directories, in the order of the listings, and then, if the listings have more than one entry,
  -- those for the directories among them to preserve, the last one first; every request was answered;
  -- and the bytes reported are the sum of the transfers, modulo 2^64.
  pub process_job_requests-Fetched :
      (negotiated : Option Compatibility) (first : CopyJobSpec) (jobs : List CopyJobSpec)
      (w after : W) (q : Progress)
      → All IsLocal (first ∷ jobs)
      → process_job_requests session run_pre true negotiated (first ∷ jobs) w ≡ ok (q, after)
      → q.overall_success ≡ true
      → Fetched negotiated first jobs w q
  unfolding process_job_requests process_recursive_get
  process_job_requests-Fetched negotiated first jobs w after q local h success =
      elim (Bool-cases (supports (get_or negotiated Compatibility.unknown) mkdir_setmeta_ls)) [
        | inl e ↦
            let decision =
              mkdir_mode (session.metadata first.destination.filename w) first.destination.filename
                (first ∷ jobs) in
            let (mode, hm, hk) = >>=-eq-ok decision _ (rw (local.0, e) at h) in
            let (new_jobs, found, ordered) = fetch_listed-split mode (first ∷ jobs) w after q hk in
            fetched negotiated first jobs w q mode new_jobs e hm found ordered
              (Enumerated-IsLocal mode (first ∷ jobs) new_jobs found local) success
        | inr e ↦ let k = rw (local.0, e) at h in cc
      ]
