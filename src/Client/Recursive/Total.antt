-- ===== src/Client/Recursive/Total.antt =====
-- When a run for the jobs of the user returns its report.
use qcp.Prelude.{
  ◌≡◌, refl, Bool, true, not, ◌&&◌, Option, none, some, List, [], ◌∷◌, get_or, Result, ok, err,
  ◌>>=◌, Bool-cases, inl, inr,
}
use qcp.Prelude.Text.{Str}
use qcp.Protocol.Compat.{Compatibility, supports, mkdir_setmeta_ls}
use qcp.Session.Listing.{ListData}
use qcp.Client.Job.{CopyJobSpec}
use qcp.Client.Transfers.{Session, Progress, created, first_is_remote, process_file_transfers}
use qcp.Client.Transfers.Total.{process_file_transfers-Returns}
use qcp.Client.Recursive.{
  Listed, RecursiveError, listed, mkdir_mode, to_create, lift_fatal, pre_phase, create_root,
  fetch_listed, process_recursive_get, process_job_requests,
}

abbrev Returns : {A : Type 0} → Result RecursiveError A → Type 0
Returns {A} r = (a : A) × (r ≡ ok a)

>>=-Returns :
    {A B : Type 0} (m : Result RecursiveError A) (f : A → Result RecursiveError B)
    → Returns m
    → ((a : A) → Returns (f a))
    → Returns (m >>= f)
>>=-Returns (ok a) f hm hf = hf a
>>=-Returns (err e) f (a, hm) hf = cc

module _ {W : Type 0} (session : Session W) (run_pre : CopyJobSpec → W → Listed × W)
    (opens : (w : W) → (session.open_stream w).0 ≡ true) where
  transfers-Returns :
      (jobs : List CopyJobSpec) (w : W)
      → Returns (lift_fatal (process_file_transfers session jobs w))
  transfers-Returns jobs w =
      let (r, h) = process_file_transfers-Returns session opens jobs w in (r, rw h refl)

  module _
      (lists : (job : CopyJobSpec) (w : W)
        → (contents : ListData) × ((run_pre job w).0 ≡ some (some contents)))
      (creates : (dir : Str) (w : W) → (session.create_dir_all dir w).0 ≡ created) where
    pre_phase-Returns :
        (mode : Option Str) (jobs : List CopyJobSpec) (w : W)
        → Returns (pre_phase session run_pre mode jobs w)
    unfolding pre_phase listed
    pre_phase-Returns mode [] w = (_, refl)
    pre_phase-Returns mode (job ∷ jobs) w =
        let between = (session.open_stream w).1 in
        let (contents, answer) = lists job between in
        rw (opens w, answer)
          (>>=-Returns (pre_phase session run_pre mode jobs (run_pre job between).1) _
            (pre_phase-Returns mode jobs (run_pre job between).1) (λ r. (_, refl)))

    create_root-Returns : (dir : Option Str) (w : W) → Returns (create_root session run_pre dir w)
    unfolding create_root
    create_root-Returns none w = (w, refl)
    create_root-Returns (some dir) w = rw (create_root, creates dir w) (_, refl)

    fetch_listed-Returns :
        (mode : Option Str) (jobs : List CopyJobSpec) (w : W)
        → Returns (fetch_listed session run_pre mode jobs w)
    unfolding fetch_listed
    fetch_listed-Returns mode jobs w =
        >>=-Returns (pre_phase session run_pre mode jobs w) _ (pre_phase-Returns mode jobs w) (λ r.
          >>=-Returns (create_root session run_pre (to_create mode r.0) r.1) _
            (create_root-Returns (to_create mode r.0) r.1) (λ v. transfers-Returns r.0 v))

    -- Where every stream opens, the remote lists every job, a directory can be made, the level has
    -- the feature and the first destination allows the run, both the plain and the recursive run
    -- return a report, whatever fails behind the streams.
    pub process_job_requests-Returns :
        (do_recurse : Bool) (negotiated : Option Compatibility) (first : CopyJobSpec)
        (jobs : List CopyJobSpec) (w : W) (mode : Option Str)
        → supports (get_or negotiated Compatibility.unknown) mkdir_setmeta_ls ≡ true
        → mkdir_mode
            (session.metadata first.destination.filename w)
            first.destination.filename
            (first ∷ jobs)
          ≡ ok mode
        → (r : Progress × W) × (process_job_requests session run_pre do_recurse negotiated
              (first ∷ jobs)
              w
            ≡ ok r)
    unfolding process_job_requests process_recursive_get
    process_job_requests-Returns do_recurse negotiated first jobs w mode level allowed =
        elim (Bool-cases (not (first_is_remote (first ∷ jobs)) && do_recurse)) [
          | inl e ↦ rw (e, level, allowed) (fetch_listed-Returns mode (first ∷ jobs) w)
          | inr e ↦ rw e (transfers-Returns (first ∷ jobs) w)
        ]
