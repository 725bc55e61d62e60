-- ===== src/Client/Transfers/Account.antt =====
-- The file transfer phase: what one of its loops gets done, job by job.
use mathlib.Core.List
use qcp.Prelude.{
  ℕ, ◌+◌, ◌%◌, ◌^◌, ◌<◌, ◌≡◌, refl, Bool, true, false, not, none, some, List, [], ◌∷◌, ◌++◌,
  append_assoc, append-nil, if◌then◌else◌, All, arith, is_some,
}
use qcp.Client.Job.{CopyJobSpec}
use qcp.Client.Transfers.{
  CommandStats, transfer, Request, Progress, aggregate, fail, transferred, is_local_dir,
}

abbrev pub filter {ℓ} : {A : Type ℓ} → (A → Bool) → List A → List A
filter p [] = []
filter p (x ∷ xs) = let rest = filter p xs in if p x then x ∷ rest else rest

-- The jobs that need the remote, in the order given.
abbrev pub remote_jobs : Bool → List CopyJobSpec → List CopyJobSpec
remote_jobs to_remote jobs = filter (λ job. not (is_local_dir to_remote job)) jobs

abbrev pub payload : Request → ℕ
payload r = elim r.outcome [ none ↦ 0 | some stats ↦ stats.payload_bytes ]

abbrev pub total_payload : List Request → ℕ
total_payload [] = 0
total_payload (r ∷ rs) = payload r + total_payload rs

abbrev pub Answered : Request → Type 0
Answered r = is_some r.outcome ≡ true

-- What a transfer phase did, from the progress `p` to the progress `q`.
pub record Transferred (to_remote : Bool) (jobs : List CopyJobSpec) (p q : Progress) : Type 0 where
  pub done : List Request
  pub left : List CopyJobSpec
  pub recorded : q.requests ≡ p.requests ++ done
  pub planned : List.map (λ r. r.job) done ++ left ≡ remote_jobs to_remote jobs
  pub phases : All (λ r. r.phase ≡ transfer) done
  pub success :
      q.overall_success ≡ true → (left ≡ []) × All Answered done × (p.overall_success ≡ true)
  pub payload_bytes :
      q.aggregate_stats.payload_bytes % 2 ^ 64
      ≡ (p.aggregate_stats.payload_bytes + total_payload done) % 2 ^ 64
  pub bounded : p.aggregate_stats.payload_bytes < 2 ^ 64 → q.aggregate_stats.payload_bytes < 2 ^ 64

module _ (to_remote : Bool) where
  pub none_left : (p : Progress) → Transferred to_remote [] p p
  none_left p = record {
    done = [];
    left = [];
    recorded = rw append-nil refl;
    planned = refl;
    phases = tt;
    success = λ e. (refl, tt, e);
    payload_bytes = omega arith;
    bounded = λ h. h;
  }

  pub broken_off : (jobs : List CopyJobSpec) (p : Progress) → Transferred to_remote jobs p (fail p)
  broken_off jobs p = record {
    done = [];
    left = remote_jobs to_remote jobs;
    recorded = rw append-nil refl;
    planned = refl;
    phases = tt;
    success = λ e. cc;
    payload_bytes = omega arith;
    bounded = λ h. h;
  }

  pub made :
      (job : CopyJobSpec) (jobs : List CopyJobSpec) (p q : Progress)
      → is_local_dir to_remote job ≡ true
      → Transferred to_remote jobs p q
      → Transferred to_remote (job ∷ jobs) p q
  made job jobs p q is_local t = record {
    done = t.done;
    left = t.left;
    recorded = t.recorded;
    planned = rw is_local t.planned;
    phases = t.phases;
    success = t.success;
    payload_bytes = t.payload_bytes;
    bounded = t.bounded;
  }

  pub refused :
      (job : CopyJobSpec) (jobs : List CopyJobSpec) (p : Progress)
      → is_local_dir to_remote job ≡ false
      → Transferred to_remote (job ∷ jobs) p (transferred job none p).1
  unfolding transferred
  refused job jobs p e = record {
    done = record { job = job; phase = transfer; outcome = none } ∷ [];
    left = remote_jobs to_remote jobs;
    recorded = refl;
    planned = rw e refl;
    phases = (refl, tt);
    success = λ e. cc;
    payload_bytes = omega arith;
    bounded = λ h. h;
  }

  pub sent :
      (job : CopyJobSpec) (jobs : List CopyJobSpec) (p q : Progress) (stats : CommandStats)
      → is_local_dir to_remote job ≡ false
      → Transferred to_remote jobs (transferred job (some stats) p).1 q
      → Transferred to_remote (job ∷ jobs) p q
  unfolding transferred aggregate
  sent job jobs p q stats e t =
      let r : Request = record { job = job; phase = transfer; outcome = some stats } in
      record {
        done = r ∷ t.done;
        left = t.left;
        recorded = rw (t.recorded, append_assoc p.requests (r ∷ []) t.done) refl;
        planned = rw (e, t.planned) refl;
        phases = (refl, t.phases);
        success = λ s.
            let (nothing, answered, before) = t.success s in (nothing, (refl, answered), before);
        payload_bytes = omega (arith, t.payload_bytes);
        bounded = λ h. t.bounded (omega arith);
      }
