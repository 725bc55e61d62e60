-- ===== src/Client/Transfers.antt =====
-- qcp/src/client/main_loop.rs: `process_file_transfers`. The connection, the remote and the local
-- file system are a world that the operations of `Session` change: opening a stream, running a
-- job on it, and the two calls of `tokio::fs`. A stream is used by the run that follows it, so
-- that the opening and the run are told apart but the stream is not a value here. Messages for
-- the user are left out, and so is the width of the file names in them. `requests` records what
-- the loops ask the remote for, with the answers.
pub mod Account
pub mod Loop
pub mod Order
pub mod Total
use qcp.Prelude.{
  ℕ, zero, suc, ◌+◌, ◌*◌, ◌%◌, ◌^◌, ◌<◌, ◌≡◌, max, Bool, true, false, not, ◌&&◌, Option, none, some,
  List, [], ◌∷◌, ◌++◌, reverse, ltb, ◌==◌, if◌then◌else◌, length, Result, ok, err, ◌>>=◌,
}
use qcp.Prelude.Text.{Str}
use qcp.Client.Job.{CopyJobSpec, is_remote}

pub record CommandStats : Type 0 where
  pub payload_bytes : ℕ
  pub peak_transfer_rate : ℕ

pub data TransferPhase : Type 0 where
  pre transfer post : TransferPhase

-- A request to the remote, with the statistics of its success.
pub record Request : Type 0 where
  pub job : CopyJobSpec
  pub phase : TransferPhase
  pub outcome : Option CommandStats

-- What `create_dir_all` ends in.
pub data Created : Type 0 where
  created already_exists failed : Created

pub record Session (W : Type 0) : Type 0 where
  pub open_stream : W → Bool × W
  pub run_job : CopyJobSpec → TransferPhase → W → Option CommandStats × W
  -- Whether the path is there, and whether it is a file.
  pub metadata : Str → W → Option Bool
  pub create_dir_all : Str → W → Created × W

pub data Fatal : Type 0 where
  no_stream : Fatal

-- The variables of the function that outlive an iteration.
pub record Progress : Type 0 where
  pub aggregate_stats : CommandStats
  pub overall_success : Bool
  pub requests : List Request

abbrev pub start : Progress
start = record {
  aggregate_stats = record { payload_bytes = 0; peak_transfer_rate = 0 };
  overall_success = true;
  requests = [];
}

-- The statistics of one more transfer: the sum wraps at 64 bits.
unfoldable pub aggregate : CommandStats → CommandStats → CommandStats
aggregate a b = record {
  payload_bytes = (a.payload_bytes + b.payload_bytes) % 2 ^ 64;
  peak_transfer_rate = max a.peak_transfer_rate b.peak_transfer_rate;
}

abbrev pub fail : Progress → Progress
fail p = record p { overall_success = false }

-- One iteration either breaks out of the loop or goes on.
pub data Flow : Type 0 where
  stop go : Flow

-- The creation of a local directory.
unfoldable pub make_local : Option Bool → Created → Progress → Flow × Progress
make_local (some true) c p = (stop, fail p)
make_local (some false) c p = (go, p)
make_local none failed p = (stop, fail p)
make_local none _ p = (go, p)

unfoldable pub transferred : CopyJobSpec → Option CommandStats → Progress → Flow × Progress
unfolding aggregate
transferred job (some stats) p = (
  go,
  record p {
    aggregate_stats = aggregate p.aggregate_stats stats;
    requests = p.requests ++ record { job = job; phase = transfer; outcome = some stats } ∷ [];
  },
)
transferred job none p = (
  stop,
  record (fail p) {
    requests = p.requests ++ record { job = job; phase = transfer; outcome = none } ∷ [];
  },
)

unfoldable pub posted : CopyJobSpec → Option CommandStats → Progress → Progress
posted job o p =
    let q = record p {
      requests = p.requests ++ record { job = job; phase = post; outcome = o } ∷ [];
    } in
    elim o [ none ↦ fail q | some stats ↦ q ]

-- Whether a job is a directory that the client makes by itself.
abbrev pub is_local_dir : Bool → CopyJobSpec → Bool
is_local_dir destination_is_remote job = not destination_is_remote && job.directory

abbrev pub is_preserved_dir : CopyJobSpec → Bool
is_preserved_dir job = job.directory && job.preserve

abbrev pub first_is_remote : List CopyJobSpec → Bool
first_is_remote [] = false
first_is_remote (job ∷ jobs) = is_remote job.destination

-- The outcome for a path that is there, or for the directory made.
unfoldable pub settle :
    {W : Type 0} → Option Bool → Created × W → Progress → W → (Flow × Progress) × W
unfolding make_local
settle (some is_file) (c, later) p w = (make_local (some is_file) c p, w)
settle none (c, later) p w = (make_local none c p, later)

module _ {W : Type 0} (session : Session W) where
  -- The branch of a local directory: nothing is made where the path is there.
  unfoldable pub local_dir : CopyJobSpec → Progress → W → (Flow × Progress) × W
  unfolding settle
  local_dir job p w =
      settle (session.metadata job.destination.filename w)
        (session.create_dir_all job.destination.filename w) p w

  -- The branch of a request.
  unfoldable pub remote_job : CopyJobSpec → Progress → W → Result Fatal ((Flow × Progress) × W)
  unfolding transferred
  remote_job job p w =
      let (opened, between) = session.open_stream w in
      let (o, after) = session.run_job job transfer between in
      if opened then ok (transferred job o p, after) else err no_stream

  -- FILE TRANSFER PHASE
  abbrev pub resume :
      (Progress → W → Result Fatal (Progress × W))
      → Flow
      → Progress
      → W
      → Result Fatal (Progress × W)
  resume rest stop p w = ok (p, w)
  resume rest go p w = rest p w

  unfoldable pub transfer_phase :
      Bool → List CopyJobSpec → Progress → W → Result Fatal (Progress × W)
  unfolding local_dir remote_job
  transfer_phase to_remote [] p w = ok (p, w)
  transfer_phase to_remote (job ∷ jobs) p w =
      (if is_local_dir to_remote job then ok (local_dir job p w) else remote_job job p w)
      >>= λ ((flow, q), after). resume (transfer_phase to_remote jobs) flow q after

  -- POST-TRANSFER, over the jobs in reverse order.
  unfoldable pub post_phase : List CopyJobSpec → Progress → W → Result Fatal (Progress × W)
  unfolding posted
  post_phase [] p w = ok (p, w)
  post_phase (job ∷ jobs) p w =
      let skipped = post_phase jobs p w in
      let (opened, between) = session.open_stream w in
      let (o, after) = session.run_job job post between in
      let more = post_phase jobs (posted job o p) after in
      if is_preserved_dir job then if opened then more else err no_stream else skipped

  unfoldable pub process_file_transfers : List CopyJobSpec → W → Result Fatal (Progress × W)
  unfolding transfer_phase post_phase
  process_file_transfers jobs w =
      transfer_phase (first_is_remote jobs) jobs start w >>= λ (p, after).
      if ltb 1 (length jobs) then post_phase (reverse jobs) p after else ok (p, after)
