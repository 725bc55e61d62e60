-- ===== src/Client/Jobspecs/Whole.antt =====
-- What the jobs of an accepted command line have in common.
use qcp.Prelude.{
  ◌≡◌, refl, ap, Bool, Option, none, some, List, [], ◌∷◌, ◌++◌, leb, length, ok, ensure, >>=-eq-ok,
  All, arith,
}
use qcp.Prelude.Text.{Str}
use qcp.Client.Job.{FileSpec, CopyJobSpec}
use qcp.Client.Paths.{WalkItem}
use qcp.Client.Jobspecs.{
  CliArgs, split_last, sources_and_destination, scan_remotes, check_sides, jobspecs,
  remote_host_lossy, user_of, remote_user_as_config,
}
use qcp.Client.Jobspecs.Planned.{IsPlanned, jobs_of-IsPlanned}
use qcp.Client.Jobspecs.Users.{OfUser, scan_remotes-OfUser}
use qcp.Client.Jobspecs.Hosts.{
  Sides, ensure-eq-ok, OnHost, scan_remotes-OnHost, check_sides-Sides, Sides-lossy,
}

split_last-append :
    (f : FileSpec) (fs : List FileSpec) → f ∷ fs ≡ (split_last f fs).0 ++ (split_last f fs).1 ∷ []
unfolding split_last
split_last-append f [] = refl
split_last-append f (g ∷ fs) = ap (λ l. f ∷ l) (split_last-append g fs)

sources_and_destination-append :
    (paths sources : List FileSpec) (destination : FileSpec)
    → sources_and_destination paths ≡ ok (sources, destination)
    → paths ≡ sources ++ destination ∷ []
unfolding sources_and_destination
sources_and_destination-append [] sources destination h = cc
sources_and_destination-append (f ∷ []) sources destination h = cc
sources_and_destination-append (f ∷ g ∷ fs) sources destination h =
    let p = split_last f (g ∷ fs) in
    let left : p.0 ≡ sources = cc in
    let right : p.1 ≡ destination = cc in rw (← left, ← right) (split_last-append f (g ∷ fs))

All-split : (P : FileSpec → Type 0) (xs ys : List FileSpec) → All P (xs ++ ys) → All P xs × All P ys
All-split P [] ys all = (tt, all)
All-split P (x ∷ xs) ys (px, all) = let (left, right) = All-split P xs ys all in ((px, left), right)

-- What an accepted command line and its jobs have in common.
pub record Accepted (paths : List FileSpec) (jobs : List CopyJobSpec) : Type 0 where
  pub host : Str
  pub sources : List FileSpec
  pub destination : FileSpec
  pub split : paths ≡ sources ++ destination ∷ []
  pub named : remote_host_lossy paths ≡ ok (some host)
  pub user : Option Str
  pub configured : remote_user_as_config paths ≡ user
  pub of_user : All (OfUser user) paths
  pub planned_jobs : All (IsPlanned host destination) jobs

accepted :
    (host : Str) (paths sources : List FileSpec) (destination : FileSpec) (jobs : List CopyJobSpec)
    → paths ≡ sources ++ destination ∷ []
    → Sides sources destination
    → All (OnHost host) sources
    → OnHost host destination
    → (user : Option Str) × (user_of (sources ++ destination ∷ []) none ≡ user)
      × All (OfUser user) (sources ++ destination ∷ [])
    → All (IsPlanned host destination) jobs
    → Accepted paths jobs
unfolding remote_host_lossy remote_user_as_config
accepted host paths sources destination jobs whole sides on here (user, same, of_user) all =
    record {
      host = host;
      sources = sources;
      destination = destination;
      split = whole;
      named = rw whole (Sides-lossy host sources destination sides on here);
      user = user;
      configured = rw whole same;
      of_user = rw whole of_user;
      planned_jobs = all;
    }

-- Whatever the walk over the local directories finds: if the paths are accepted, the search for the
-- host, which the connection is made with, finds one; each job has exactly one remote side, which
-- is on that host, and a destination on the side of the last path; and every path names the remote
-- user that the configuration gets, or no user.
pub jobspecs-Accepted :
    (walk_dir : Str → Bool → List WalkItem) (args : CliArgs) (success : Bool)
    (jobs : List CopyJobSpec)
    → jobspecs walk_dir args ≡ ok (success, jobs)
    → Accepted args.paths jobs
unfolding jobspecs
jobspecs-Accepted walk_dir args success jobs h =
    let (p, hp, h1) = >>=-eq-ok (sources_and_destination args.paths) _ h in
    let paths = p.0 ++ p.1 ∷ [] in
    let (hosts, hh, h2) = >>=-eq-ok (scan_remotes paths [] none) _ h1 in
    let (u, hu, h3) = >>=-eq-ok (ensure (leb (length hosts) 1) _) _ h2 in
    let (v, hv, h4) = >>=-eq-ok (check_sides p.0 p.1) _ h3 in
    let few = ensure-eq-ok (leb (length hosts) 1) _ u hu in
    let (host, all) = scan_remotes-OnHost paths none hosts hh (ground (arith, few)) in
    let (on, (here, _)) = All-split (OnHost host) p.0 (p.1 ∷ []) all in
    accepted host args.paths p.0 p.1 jobs (sources_and_destination-append args.paths p.0 p.1 hp)
      (check_sides-Sides p.0 p.1 v hv) on here (scan_remotes-OfUser paths [] hosts hh)
      (jobs_of-IsPlanned host p.1 here walk_dir args p.0 success jobs on h4)
