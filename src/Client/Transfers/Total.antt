-- ===== src/Client/Transfers/Total.antt =====
-- A run ends early only where a stream cannot be opened.
use qcp.Prelude.{
  ◌≡◌, refl, Bool, true, List, [], ◌∷◌, reverse, ltb, if◌then◌else◌, length, Result, ok, err, ◌>>=◌,
  Bool-cases, inl, inr,
}
use qcp.Client.Job.{CopyJobSpec}
use qcp.Client.Transfers.{
  post, Session, Fatal, Progress, Flow, stop, go, start, resume, local_dir, remote_job, posted,
  is_local_dir, is_preserved_dir, first_is_remote, transfer_phase, post_phase,
  process_file_transfers,
}

abbrev Returns : {A : Type 0} → Result Fatal A → Type 0
Returns {A} r = (a : A) × (r ≡ ok a)

>>=-Returns :
    {A B : Type 0} (m : Result Fatal A) (f : A → Result Fatal B)
    → Returns m
    → ((a : A) → Returns (f a))
    → Returns (m >>= f)
>>=-Returns (ok a) f hm hf = hf a
>>=-Returns (err e) f (a, hm) hf = cc

module _ {W : Type 0} (session : Session W)
    (opens : (w : W) → (session.open_stream w).0 ≡ true) where
  remote_job-Returns :
      (job : CopyJobSpec) (p : Progress) (w : W) → Returns (remote_job session job p w)
  unfolding remote_job
  remote_job-Returns job p w = rw (opens w) (_, refl)

  resume-Returns :
      (rest : Progress → W → Result Fatal (Progress × W))
      → ((p : Progress) (w : W) → Returns (rest p w))
      → (flow : Flow) (p : Progress) (w : W) → Returns (resume session rest flow p w)
  resume-Returns rest ih stop p w = ((p, w), refl)
  resume-Returns rest ih go p w = ih p w

  iteration-Returns :
      (to_remote : Bool) (job : CopyJobSpec) (p : Progress) (w : W)
      → Returns (
          if is_local_dir to_remote job
          then ok (local_dir session job p w)
          else remote_job session job p w)
  iteration-Returns to_remote job p w = elim (Bool-cases (is_local_dir to_remote job)) [
    | inl e ↦ rw e (local_dir session job p w, refl)
    | inr e ↦ rw e (remote_job-Returns job p w)
  ]

  transfer_phase-Returns :
      (to_remote : Bool) (jobs : List CopyJobSpec) (p : Progress) (w : W)
      → Returns (transfer_phase session to_remote jobs p w)
  unfolding transfer_phase
  transfer_phase-Returns to_remote [] p w = ((p, w), refl)
  transfer_phase-Returns to_remote (job ∷ jobs) p w =
      >>=-Returns
        (if is_local_dir to_remote job
          then ok (local_dir session job p w)
          else remote_job session job p w)
        _ (iteration-Returns to_remote job p w)
        (λ r.
          resume-Returns (transfer_phase session to_remote jobs)
            (λ q v. transfer_phase-Returns to_remote jobs q v) r.0.0 r.0.1 r.1)

  post_phase-Returns :
      (jobs : List CopyJobSpec) (p : Progress) (w : W) → Returns (post_phase session jobs p w)
  unfolding post_phase
  post_phase-Returns [] p w = ((p, w), refl)
  post_phase-Returns (job ∷ jobs) p w = elim (Bool-cases (is_preserved_dir job)) [
    | inl e ↦
        let o = session.run_job job post (session.open_stream w).1 in
        rw (e, opens w) (post_phase-Returns jobs (posted job o.0 p) o.1)
    | inr e ↦ rw e (post_phase-Returns jobs p w)
  ]

  -- Where every stream opens, a run returns its report, whatever fails behind the streams.
  pub process_file_transfers-Returns :
      (jobs : List CopyJobSpec) (w : W)
      → (r : Progress × W) × (process_file_transfers session jobs w ≡ ok r)
  unfolding process_file_transfers
  process_file_transfers-Returns jobs w =
      >>=-Returns (transfer_phase session (first_is_remote jobs) jobs start w) _
        (transfer_phase-Returns (first_is_remote jobs) jobs start w)
        (λ r. elim (Bool-cases (ltb 1 (length jobs))) [
          | inl e ↦ rw e (post_phase-Returns (reverse jobs) r.0 r.1)
          | inr e ↦ rw e (r, refl)
        ])
