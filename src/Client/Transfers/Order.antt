-- ===== src/Client/Transfers/Order.antt =====
-- The whole of a transfer: the order of the requests, the report of success, and the statistics.
use mathlib.Core.List
use mathlib.Core.Path.{subst}
use qcp.Prelude.{
  ◌%◌, ◌^◌, ◌≡◌, refl, true, Option, none, some, List, [], ◌∷◌, ◌++◌, append_assoc, append-nil,
  reverse, ltb, if◌then◌else◌, length, ok, >>=-eq-ok, All, arith, Bool-cases, inl, inr,
}
use qcp.Client.Job.{CopyJobSpec}
use qcp.Client.Transfers.{
  CommandStats, transfer, post, Request, Session, Progress, start, posted, is_preserved_dir,
  first_is_remote, transfer_phase, post_phase, process_file_transfers,
}
use qcp.Client.Transfers.Account.{filter, remote_jobs, total_payload, Answered, Transferred}
use qcp.Client.Transfers.Loop.{transfer_phase-Transferred}

-- What the second phase asks for: the directories that are to keep their attributes, the last first.
abbrev pub post_jobs : List CopyJobSpec → List CopyJobSpec
post_jobs jobs = if ltb 1 (length jobs) then filter is_preserved_dir (reverse jobs) else []

-- What the second phase did, from the progress `p` to the progress `q`.
record Posted (jobs : List CopyJobSpec) (p q : Progress) : Type 0 where
  done : List Request
  recorded : q.requests ≡ p.requests ++ done
  planned : List.map (λ r. r.job) done ≡ jobs
  phases : All (λ r. r.phase ≡ post) done
  success : q.overall_success ≡ true → All Answered done × (p.overall_success ≡ true)
  kept : q.aggregate_stats ≡ p.aggregate_stats

nothing-Posted : (p : Progress) → Posted [] p p
nothing-Posted p = record {
  done = [];
  recorded = rw append-nil refl;
  planned = refl;
  phases = tt;
  success = λ e. (tt, e);
  kept = refl;
}

one_posted :
    (job : CopyJobSpec) (jobs : List CopyJobSpec) (o : Option CommandStats) (p q : Progress)
    → Posted jobs (posted job o p) q
    → Posted (job ∷ jobs) p q
unfolding posted
one_posted job jobs none p q t =
    let r : Request = record { job = job; phase = post; outcome = none } in
    record {
      done = r ∷ t.done;
      recorded = rw (t.recorded, append_assoc p.requests (r ∷ []) t.done) refl;
      planned = rw t.planned refl;
      phases = (refl, t.phases);
      success = λ e. let (answered, before) = t.success e in cc;
      kept = t.kept;
    }
one_posted job jobs (some stats) p q t =
    let r : Request = record { job = job; phase = post; outcome = some stats } in
    record {
      done = r ∷ t.done;
      recorded = rw (t.recorded, append_assoc p.requests (r ∷ []) t.done) refl;
      planned = rw t.planned refl;
      phases = (refl, t.phases);
      success = λ e. let (answered, before) = t.success e in ((refl, answered), before);
      kept = t.kept;
    }

module _ {W : Type 0} (session : Session W) where
  post_phase-Posted :
      (jobs : List CopyJobSpec) (p : Progress) (w : W) (q : Progress) (after : W)
      → post_phase session jobs p w ≡ ok (q, after)
      → Posted (filter is_preserved_dir jobs) p q
  unfolding post_phase
  post_phase-Posted [] p w q after h =
      let same : p ≡ q = cc in subst (Posted [] p) same (nothing-Posted p)
  post_phase-Posted (job ∷ jobs) p w q after h = elim (Bool-cases (is_preserved_dir job)) [
    | inl e ↦
        let o = session.run_job job post (session.open_stream w).1 in
        elim (Bool-cases (session.open_stream w).0) [
          | inl opened ↦ rw e (
              one_posted job (filter is_preserved_dir jobs) o.0 p q
                (post_phase-Posted jobs (posted job o.0 p) o.1 q after (rw (e, opened) at h)))
          | inr closed ↦ let k = rw (e, closed) at h in cc
        ]
    | inr e ↦ rw e (post_phase-Posted jobs p w q after (rw e at h))
  ]

-- What a run that no lost connection ends has asked for and what it reports.
pub record Ordered (jobs : List CopyJobSpec) (q : Progress) : Type 0 where
  pub transfers : List Request
  pub posts : List Request
  pub left : List CopyJobSpec
  pub recorded : q.requests ≡ transfers ++ posts
  pub planned : List.map (λ r. r.job) transfers ++ left ≡ remote_jobs (first_is_remote jobs) jobs
  pub transfer_phases : All (λ r. r.phase ≡ transfer) transfers
  pub finished : List.map (λ r. r.job) posts ≡ post_jobs jobs
  pub post_phases : All (λ r. r.phase ≡ post) posts
  pub success : q.overall_success ≡ true → (left ≡ []) × All Answered transfers × All Answered posts
  pub payload_bytes : q.aggregate_stats.payload_bytes ≡ total_payload transfers % 2 ^ 64

together :
    (jobs : List CopyJobSpec) (p q : Progress)
    → Transferred (first_is_remote jobs) jobs start p
    → Posted (post_jobs jobs) p q
    → Ordered jobs q
together jobs p q t u = record {
  transfers = t.done;
  posts = u.done;
  left = t.left;
  recorded = rw (u.recorded, t.recorded) refl;
  planned = t.planned;
  transfer_phases = t.phases;
  finished = u.planned;
  post_phases = u.phases;
  success = λ e.
      let (answered, before) = u.success e in
      let (nothing, sent, _) = t.success before in (nothing, sent, answered);
  payload_bytes = rw u.kept (omega (arith, t.payload_bytes, t.bounded (omega arith)));
}

-- If the run returns, the requests are first the transfers of a front part of the remote jobs, in
-- the order given, and then, if there is more than one job, those for all the directories to preserve,
-- the last directory first, even where a transfer failed; for a lone job there are none. Success is reported only if no remote
-- job is left out and every request was answered, and the bytes reported are those of the
-- transfers, modulo 2^64.
pub process_file_transfers-Ordered :
    {W : Type 0} (session : Session W) (jobs : List CopyJobSpec) (w after : W) (q : Progress)
    → process_file_transfers session jobs w ≡ ok (q, after)
    → Ordered jobs q
unfolding process_file_transfers
process_file_transfers-Ordered session jobs w after q h =
    let (r, hr, hk) = >>=-eq-ok (transfer_phase session (first_is_remote jobs) jobs start w) _ h in
    let t = transfer_phase-Transferred session (first_is_remote jobs) jobs start w r.0 r.1 hr in
    elim (Bool-cases (ltb 1 (length jobs))) [
      | inl e ↦
          let u = post_phase-Posted session (reverse jobs) r.0 r.1 q after (rw e at hk) in
          together jobs r.0 q t (rw e u)
      | inr e ↦
          let k = rw e at hk in
          let same : r.0 ≡ q = cc in
          together jobs r.0 q t (rw e (subst (Posted [] r.0) same (nothing-Posted r.0)))
    ]
