-- ===== src/Client/Transfers/Loop.antt =====
-- The file transfer phase: every iteration of its loop is one of four steps.
use mathlib.Core.Path.{subst}
use qcp.Prelude.{
  ◌≡◌, refl, Bool, true, false, Option, none, some, List, [], ◌∷◌, if◌then◌else◌, Result, ok,
  >>=-eq-ok, Bool-cases, inl, inr,
}
use qcp.Client.Job.{CopyJobSpec}
use qcp.Client.Transfers.{
  CommandStats, transfer, Created, created, failed, Session, Fatal, Progress, fail, Flow, stop, go,
  make_local, settle, resume, already_exists, transferred, is_local_dir, local_dir, remote_job,
  transfer_phase,
}
use qcp.Client.Transfers.Account.{Transferred, none_left, broken_off, made, refused, sent}

module _ (to_remote : Bool) where
  -- What one iteration may do.
  data Step (job : CopyJobSpec) (p : Progress) (flow : Flow) (q : Progress) : Type 0 where
    cut : flow ≡ stop → q ≡ fail p → Step job p flow q
    skip : is_local_dir to_remote job ≡ true → flow ≡ go → q ≡ p → Step job p flow q
    refuse :
        is_local_dir to_remote job ≡ false
        → flow ≡ stop
        → q ≡ (transferred job none p).1
        → Step job p flow q
    send :
        (stats : CommandStats)
        → is_local_dir to_remote job ≡ false
        → flow ≡ go
        → q ≡ (transferred job (some stats) p).1
        → Step job p flow q

  settle-Step :
      {W : Type 0} (job : CopyJobSpec) (o : Option Bool) (made : Created × W) (p : Progress) (w : W)
      → is_local_dir to_remote job ≡ true
      → Step job p (settle o made p w).0.0 (settle o made p w).0.1
  unfolding settle make_local
  settle-Step job (some true) (c, later) p w e = cut refl refl
  settle-Step job (some false) (c, later) p w e = skip e refl refl
  settle-Step job none (failed, later) p w e = cut refl refl
  settle-Step job none (created, later) p w e = skip e refl refl
  settle-Step job none (already_exists, later) p w e = skip e refl refl

  transferred-Step :
      (job : CopyJobSpec) (o : Option CommandStats) (p : Progress)
      → is_local_dir to_remote job ≡ false
      → Step job p (transferred job o p).0 (transferred job o p).1
  unfolding transferred
  transferred-Step job none p e = refuse e refl refl
  transferred-Step job (some stats) p e = send stats e refl refl

module _ {W : Type 0} (session : Session W) (to_remote : Bool) where
  resume-stop :
      (rest : Progress → W → Result Fatal (Progress × W)) (flow : Flow) (p x q : Progress)
      (w after : W)
      → flow ≡ stop
      → p ≡ x
      → resume session rest flow p w ≡ ok (q, after)
      → x ≡ q
  resume-stop rest stop p x q w after e f h = cc
  resume-stop rest go p x q w after e f h = cc

  resume-go :
      (rest : Progress → W → Result Fatal (Progress × W)) (flow : Flow) (p x q : Progress)
      (w after : W)
      → flow ≡ go
      → p ≡ x
      → resume session rest flow p w ≡ ok (q, after)
      → rest x w ≡ ok (q, after)
  resume-go rest stop p x q w after e f h = cc
  resume-go rest go p x q w after e f h = rw (← f) h

  resume-Transferred :
      (job : CopyJobSpec) (jobs : List CopyJobSpec) (p : Progress)
      (rest : Progress → W → Result Fatal (Progress × W))
      → ((p' : Progress) (w : W) (q : Progress) (after : W)
          → rest p' w ≡ ok (q, after)
          → Transferred to_remote jobs p' q)
      → (flow : Flow) (p' : Progress) (w : W) (q : Progress) (after : W)
      → Step to_remote job p flow p'
      → resume session rest flow p' w ≡ ok (q, after)
      → Transferred to_remote (job ∷ jobs) p q
  resume-Transferred job jobs p rest ih flow p' w q after (cut e f) h =
      let same : fail p ≡ q = resume-stop rest flow p' (fail p) q w after e f h in
      subst (Transferred to_remote (job ∷ jobs) p) same (broken_off to_remote (job ∷ jobs) p)
  resume-Transferred job jobs p rest ih flow p' w q after (skip l e f) h =
      made to_remote job jobs p q l (ih p w q after (resume-go rest flow p' p q w after e f h))
  resume-Transferred job jobs p rest ih flow p' w q after (refuse l e f) h =
      let same : (transferred job none p).1 ≡ q =
        resume-stop rest flow p' (transferred job none p).1 q w after e f h in
      subst (Transferred to_remote (job ∷ jobs) p) same (refused to_remote job jobs p l)
  resume-Transferred job jobs p rest ih flow p' w q after (send stats l e f) h =
      sent to_remote job jobs p q stats l (
        ih (transferred job (some stats) p).1 w q after
          (resume-go rest flow p' (transferred job (some stats) p).1 q w after e f h))

  remote_job-Step :
      (job : CopyJobSpec) (p : Progress) (w : W) (r : (Flow × Progress) × W)
      → is_local_dir to_remote job ≡ false
      → remote_job session job p w ≡ ok r
      → Step to_remote job p r.0.0 r.0.1
  unfolding remote_job
  remote_job-Step job p w r e h =
      let o = session.run_job job transfer (session.open_stream w).1 in
      elim (Bool-cases (session.open_stream w).0) [
        | inl open_ok ↦
            let k = rw open_ok at h in
            let same : ◌≡◌ {A = (Flow × Progress) × W} (transferred job o.0 p, o.1) r = cc in
            subst (λ r'. Step to_remote job p r'.0.0 r'.0.1) same
              (transferred-Step to_remote job o.0 p e)
        | inr closed ↦ let k = rw closed at h in cc
      ]

  iteration-Step :
      (job : CopyJobSpec) (p : Progress) (w : W) (r : (Flow × Progress) × W)
      → (if is_local_dir to_remote job
          then ok (local_dir session job p w)
          else remote_job session job p w)
        ≡ ok r
      → Step to_remote job p r.0.0 r.0.1
  unfolding local_dir
  iteration-Step job p w r h = elim (Bool-cases (is_local_dir to_remote job)) [
    | inl e ↦
        let k = rw e at h in
        let same : local_dir session job p w ≡ r = cc in
        subst (λ r'. Step to_remote job p r'.0.0 r'.0.1) same
          (settle-Step to_remote job (session.metadata job.destination.filename w)
            (session.create_dir_all job.destination.filename w) p w e)
    | inr e ↦ remote_job-Step job p w r e (rw e at h)
  ]

  pub transfer_phase-Transferred :
      (jobs : List CopyJobSpec) (p : Progress) (w : W) (q : Progress) (after : W)
      → transfer_phase session to_remote jobs p w ≡ ok (q, after)
      → Transferred to_remote jobs p q
  unfolding transfer_phase
  transfer_phase-Transferred [] p w q after h =
      let same : p ≡ q = cc in subst (Transferred to_remote [] p) same (none_left to_remote p)
  transfer_phase-Transferred (job ∷ jobs) p w q after h =
      let (r, hr, hk) =
        >>=-eq-ok
          (if is_local_dir to_remote job
            then ok (local_dir session job p w)
            else remote_job session job p w)
          _ h in
      resume-Transferred job jobs p (transfer_phase session to_remote jobs)
        (λ p' w' q' a' h'. transfer_phase-Transferred jobs p' w' q' a' h') r.0.0 r.0.1 r.1 q after
        (iteration-Step job p w r hr) hk
