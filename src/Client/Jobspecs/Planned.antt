-- ===== src/Client/Jobspecs/Planned.antt =====
-- Every job is on the one host, and on the sides that the command line has.
use mathlib.Core.Path.{subst}
use qcp.Prelude.{
  ◌≡◌, ◌||◌, refl, sym, Bool, false, not, ◌&&◌, some, List, [], ◌∷◌, ◌++◌, ltb, length, Result, ok,
  err, >>=-eq-ok, All, All-append, Bool-cases, inl, inr,
}
use qcp.Prelude.Text.{Str, codes}
use qcp.Client.Job.{FileSpec, CopyJobSpec, JobError, hostname_of, is_remote, try_new, remote_host}
use qcp.Client.Job.Text.{OneRemote, try_new-OneRemote, try_new-eq}
use qcp.Client.Paths
use qcp.Client.Paths.{
  is_empty, WalkItem, WalkError, DirEntry, join_remote, contents_of, dest_stem, walked_jobs,
  recurse_local_source,
}
use qcp.Client.Jobspecs.{
  CliArgs, hostname, dest_filename, plain_jobs, lift_job, lift_walk, walk_sources, jobs_of,
}
use qcp.Client.Jobspecs.Hosts.{OnHost}

-- What holds of each job: one side is remote, and that on the host, and the destination is on the
-- side of the destination given.
pub record IsPlanned (host : Str) (destination : FileSpec) (j : CopyJobSpec) : Type 0 where
  pub one_remote : OneRemote j
  pub on_host : remote_host j ≡ host
  pub same_side : is_remote j.destination ≡ is_remote destination

OnHost-eq :
    (host s : Str) (f : FileSpec) → OnHost host f → f.user_at_host ≡ some s → hostname_of s ≡ host
unfolding hostname
OnHost-eq host s f (inl e) h = let k = rw h at e in cc
OnHost-eq host s f (inr e) h = let k = rw h at e in cc

OneRemote-host :
    (host : Str) (j : CopyJobSpec)
    → OnHost host j.source
    → OnHost host j.destination
    → OneRemote j
    → remote_host j ≡ host
unfolding remote_host
OneRemote-host host j ha hb (OneRemote.get s e _ _ u) = rw u (OnHost-eq host s j.source ha e)
OneRemote-host host j ha hb (OneRemote.put s _ e _ u) = rw u (OnHost-eq host s j.destination hb e)

planned :
    (host : Str) (a b destination : FileSpec) (preserve directory : Bool) (j : CopyJobSpec)
    → OnHost host a
    → OnHost host b
    → is_remote b ≡ is_remote destination
    → try_new a b preserve directory ≡ ok j
    → IsPlanned host destination j
planned host a b destination p d j ha hb same h =
    let (ea, eb, _) = try_new-eq a b p d j h in
    let accepted = try_new-OneRemote a b p d j h in
    record {
      one_remote = accepted;
      on_host =
          OneRemote-host host j (subst (OnHost host) (sym ea) ha) (subst (OnHost host) (sym eb) hb)
            accepted;
      same_side = rw eb same;
    }

lift_job-eq-ok : (r : Result JobError CopyJobSpec) (j : CopyJobSpec) → lift_job r ≡ ok j → r ≡ ok j
lift_job-eq-ok (ok i) j h = cc
lift_job-eq-ok (err e) j h = cc

lift_walk-eq-ok : {A : Type 0} (r : Result WalkError A) (a : A) → lift_walk r ≡ ok a → r ≡ ok a
lift_walk-eq-ok (ok b) a h = cc
lift_walk-eq-ok (err e) a h = cc

walk_job-eq-ok :
    (r : Result JobError CopyJobSpec) (j : CopyJobSpec) → Paths.lift_job r ≡ ok j → r ≡ ok j
walk_job-eq-ok (ok i) j h = cc
walk_job-eq-ok (err e) j h = cc

module _ (host : Str) (destination : FileSpec) (here : OnHost host destination) where
  -- A destination with another file name is on the same side of the same host.
  plain_jobs-IsPlanned :
      (leaf_needed preserve : Bool) (sources : List FileSpec) (jobs : List CopyJobSpec)
      → All (OnHost host) sources
      → plain_jobs leaf_needed preserve destination sources ≡ ok jobs
      → All (IsPlanned host destination) jobs
  unfolding plain_jobs hostname
  plain_jobs-IsPlanned leaf_needed preserve [] jobs on h =
      let same : [] ≡ jobs = cc in subst (All (IsPlanned host destination)) same tt
  plain_jobs-IsPlanned leaf_needed preserve (source ∷ sources) jobs (hs, on) h =
      let (filename, _, hk) = >>=-eq-ok (dest_filename leaf_needed source destination) _ h in
      let target = record destination { filename = filename } in
      let (first, hf, hm) = >>=-eq-ok (lift_job (try_new source target preserve false)) _ hk in
      let (rest, hr, he) = >>=-eq-ok (plain_jobs leaf_needed preserve destination sources) _ hm in
      let same : first ∷ rest ≡ jobs = cc in
      subst (All (IsPlanned host destination)) same (
        planned host source target destination preserve false first hs here refl
            (lift_job-eq-ok (try_new source target preserve false) first hf),
        plain_jobs-IsPlanned leaf_needed preserve sources rest on hr,
      )

  walked_jobs-IsPlanned :
      (source : FileSpec) (stem : Str) (preserve : Bool) (listing : List (DirEntry × Str))
      (jobs : List CopyJobSpec)
      → OnHost host source
      → walked_jobs source destination stem preserve listing ≡ ok jobs
      → All (IsPlanned host destination) jobs
  unfolding walked_jobs hostname
  walked_jobs-IsPlanned source stem preserve [] jobs hs h =
      let same : [] ≡ jobs = cc in subst (All (IsPlanned host destination)) same tt
  walked_jobs-IsPlanned source stem preserve ((e, leaf) ∷ listing) jobs hs h =
      let from = record source { filename = e.path } in
      let target = record destination { filename = join_remote stem leaf } in
      let (first, hf, hk) =
        >>=-eq-ok (Paths.lift_job (try_new from target preserve e.is_dir)) _ h in
      let (rest, hr, he) = >>=-eq-ok (walked_jobs source destination stem preserve listing) _ hk in
      let same : first ∷ rest ≡ jobs = cc in
      subst (All (IsPlanned host destination)) same (
        planned host from target destination preserve e.is_dir first hs here refl
            (walk_job-eq-ok (try_new from target preserve e.is_dir) first hf),
        walked_jobs-IsPlanned source stem preserve listing rest hs hr,
      )

  module _ (walk_dir : Str → Bool → List WalkItem) where
    recurse_local_source-IsPlanned :
        (source : FileSpec) (preserve : Bool) (success : Bool) (jobs : List CopyJobSpec)
        → OnHost host source
        → recurse_local_source walk_dir source destination preserve ≡ ok (success, jobs)
        → All (IsPlanned host destination) jobs
    unfolding recurse_local_source
    recurse_local_source-IsPlanned source preserve success jobs hs h =
        elim (Bool-cases (is_remote destination)) [
          | inl e ↦
              let items = walk_dir source.filename (is_empty destination.filename) in
              let stem = dest_stem source.filename destination.filename in
              let (found, _, hk) = >>=-eq-ok (contents_of (codes "/") items) _ (rw e at h) in
              let (made, hm, he) =
                >>=-eq-ok (walked_jobs source destination stem preserve found.1) _ hk in
              let same : made ≡ jobs = cc in
              subst (All (IsPlanned host destination)) same
                (walked_jobs-IsPlanned source stem preserve found.1 made hs hm)
          | inr e ↦ let k = rw e at h in cc
        ]

    walk_sources-IsPlanned :
        (preserve : Bool) (sources : List FileSpec) (success : Bool) (jobs : List CopyJobSpec)
        → All (OnHost host) sources
        → walk_sources walk_dir preserve destination sources ≡ ok (success, jobs)
        → All (IsPlanned host destination) jobs
    unfolding walk_sources
    walk_sources-IsPlanned preserve [] success jobs on h =
        let same : [] ≡ jobs = cc in subst (All (IsPlanned host destination)) same tt
    walk_sources-IsPlanned preserve (source ∷ sources) success jobs (hs, on) h =
        let walked = recurse_local_source walk_dir source destination preserve in
        let (first, hf, hk) = >>=-eq-ok (lift_walk walked) _ h in
        let (rest, hr, he) = >>=-eq-ok (walk_sources walk_dir preserve destination sources) _ hk in
        let same : first.1 ++ rest.1 ≡ jobs = cc in
        subst (All (IsPlanned host destination)) same (
          All-append (IsPlanned host destination) first.1 rest.1
            (recurse_local_source-IsPlanned source preserve first.0 first.1 hs
              (lift_walk-eq-ok walked first hf))
            (walk_sources-IsPlanned preserve sources rest.0 rest.1 on hr))

    pub jobs_of-IsPlanned :
        (args : CliArgs) (sources : List FileSpec) (success : Bool) (jobs : List CopyJobSpec)
        → All (OnHost host) sources
        → jobs_of walk_dir args sources destination ≡ ok (success, jobs)
        → All (IsPlanned host destination) jobs
    unfolding jobs_of
    jobs_of-IsPlanned args sources success jobs on h =
        elim (Bool-cases (args.recurse && is_remote destination)) [
          | inl e ↦ walk_sources-IsPlanned args.preserve sources success jobs on (rw e at h)
          | inr e ↦
              let leaf_needed =
                ltb 1 (length sources) && (not args.recurse || is_remote destination) in
              let (made, hm, he) =
                >>=-eq-ok (plain_jobs leaf_needed args.preserve destination sources) _
                  (rw e at h) in
              let same : made ≡ jobs = cc in
              subst (All (IsPlanned host destination)) same
                (plain_jobs-IsPlanned leaf_needed args.preserve sources made on hm)
        ]
