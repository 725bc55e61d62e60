-- ===== src/Session/Requests/Ending.antt =====
-- Every request of a client comes to an end on its stream, where the server's splittings end.
use qcp.Prelude.{
  ℕ, ◌≡◌, ◌≢◌, Bool, true, false, ◌&&◌, Option, none, some, List, [], Result, Result-cases,
  Bool-cases, inl, inr, if◌then◌else◌,
}
use qcp.Prelude.Text.{Str}
use qcp.Client.Job.{CopyJobSpec, is_remote}
use qcp.Client.Transfers.{TransferPhase, pre, transfer, post}
use qcp.Protocol.Compat.{Compatibility, supports, get2_put2, mkdir_setmeta_ls}
use qcp.Session.Directories.{answered, mkdir_send, set_meta_send}
use qcp.Session.Effects.{M, Outcome, RequestResult}
use qcp.Session.Exchange.{Endpoint, Connection, connection, send, finish}
use qcp.Session.Exchange.Ending.{
  Ends, Reaches-Ends, first_finished, Silent-Ends, Quiet, Quiet-Silent,
}
use qcp.Session.Exchange.Live.{Live, Lively-Live}
use qcp.Session.Exchange.Progress.{
  goes, stays, first_sends, second_receives, AlwaysEnds, Reaches-AlwaysEnds,
}
use qcp.Session.Exchange.Schedule.{IsOver}
use qcp.Session.Files.{FileSystem, is_dir}
use qcp.Session.Get.{get_send}
use qcp.Session.List.{SplittingsEnd, list_send}
use qcp.Session.Listing.{ListData, ListEntry, SplitError}
use qcp.Session.Messages.{
  Packet, Command, command_, IoError, connection_reset, create_directory, set_metadata, list,
}
use qcp.Session.Put.Ending.{put_send-Ends}
use qcp.Session.Requests.{
  client_sender, set_local_mode, run_request, command_handler, handle_stream,
}
use qcp.Session.Requests.Clients.{get_send-Lively, answered-Lively, list_send-Lively}
use qcp.Session.Requests.Servers.{
  handle_stream-Lively, get_handle-Quiet, mkdir_handle-Quiet, set_meta_handle-Quiet,
  list_handle-Quiet,
}
use qcp.Session.Transfer.{get_command}

module _ {W V : Type 0} (local : FileSystem W) (fs : FileSystem V)
    (walk : Str → Bool → V → Result Str (List ListEntry))
    (split : ListData → Result SplitError (List ListData)) (fuel : ℕ)
    (compat server : Compatibility) (recursive : Bool) (peak : ℕ) (w : W) (v : V)
    (splits : SplittingsEnd walk split) where
  -- A stream with the client at one end.
  abbrev pub with_client :
      Endpoint Packet (Outcome W RequestResult)
      → Connection Packet (Outcome W RequestResult) (Outcome V (Unit {0}))
  with_client p = connection p (handle_stream fs walk split server v) [] []

  -- A client that asks for nothing.
  finished : (r : Outcome W RequestResult) → Ends (with_client (finish r))
  finished r =
      first_finished r _ [] [] (Lively-Live (handle_stream-Lively fs walk split splits server) v)

  -- Once the server has a command whose handler waits for nothing, the exchange ends.
  commanded :
      (c : Command) (p : Endpoint Packet (Outcome W RequestResult))
      → Live p
      → Quiet (command_handler fs walk split server c)
      → Ends (with_client (send (command_ c) p))
  unfolding handle_stream
  commanded c p live q =
      Reaches-Ends
        (goes (first_sends (command_ c) p _ [] [])
          (goes (second_receives (command_ c) p _ [] []) (stays _)))
        (Silent-Ends p _ [] [] live (Quiet-Silent q v))

  get_command-Quiet :
      (job : CopyJobSpec) → Quiet (command_handler fs walk split server (get_command compat job))
  unfolding command_handler get_command
  get_command-Quiet job = elim (Bool-cases (supports compat get2_put2)) [
    | inl two ↦ rw two (get_handle-Quiet fs server _)
    | inr one ↦ rw one (get_handle-Quiet fs server _)
  ]

  get_send-Ends : (job : CopyJobSpec) → Ends (with_client (get_send local compat job peak w))
  unfolding get_send
  get_send-Ends job =
      commanded (get_command compat job) _ (Lively-Live (get_send-Lively local compat job peak) w)
        (get_command-Quiet job)

  -- A client that waits for the answer to its command.
  asking : (v1 : W) → Live (answered {W = W} v1)
  unfolding answered
  asking v1 = Lively-Live answered-Lively v1

  mkdir_send-Ends : (job : CopyJobSpec) → Ends (with_client (mkdir_send compat job w))
  unfolding mkdir_send command_handler
  mkdir_send-Ends job = elim (Bool-cases (supports compat mkdir_setmeta_ls)) [
    | inl has ↦ elim (Bool-cases (is_remote job.destination)) [
      | inl remote ↦
          rw (has, remote) (commanded (create_directory _) _ (asking _) (mkdir_handle-Quiet fs _))
      | inr near ↦ rw (has, near) (finished _)
    ]
    | inr lacks ↦ rw lacks (finished _)
  ]

  list_send-Ends : (job : CopyJobSpec) → Ends (with_client (list_send fuel compat job recursive w))
  unfolding list_send command_handler
  list_send-Ends job =
      let live = Lively-Live (list_send-Lively fuel compat job recursive) w in
      elim (Bool-cases (supports compat mkdir_setmeta_ls)) [
        | inl has ↦
            rw has
              (commanded (list _) _ (rw has at live) (list_handle-Quiet fs walk split splits _))
        | inr lacks ↦ rw lacks (finished _)
      ]

  set_meta_send-Ends : (job : CopyJobSpec) → Ends (with_client (set_meta_send local compat job w))
  unfolding set_meta_send command_handler
  set_meta_send-Ends job = elim (Bool-cases (supports compat mkdir_setmeta_ls)) [
    | inl has ↦ elim (Result-cases (local.metadata job.source.filename w)) [
      | inl (m, found) ↦ elim (Bool-cases (is_dir m)) [
        | inl dir ↦
            rw (has, found, dir)
              (commanded (set_metadata _) _ (asking _) (set_meta_handle-Quiet fs _))
        | inr file ↦ rw (has, found, file) (finished _)
      ]
      | inr (e, missing) ↦ rw (has, missing) (finished _)
    ]
    | inr lacks ↦ rw lacks (finished _)
  ]

  choice-Ends :
      (b : Bool) (m k : M W RequestResult)
      → Ends (with_client (m w))
      → Ends (with_client (k w))
      → Ends (with_client ((if b then m else k) w))
  choice-Ends true m k first_ends second_ends = first_ends
  choice-Ends false m k first_ends second_ends = second_ends

  set_local_mode-Ends :
      (path : Str) (m : Option ℕ)
      → Ends (with_client (set_local_mode local fuel compat recursive peak path m w))
  unfolding set_local_mode
  set_local_mode-Ends path none = finished _
  set_local_mode-Ends path (some m) = elim (Result-cases (local.metadata path w)) [
    | inl (meta, found) ↦ elim (Result-cases (local.chmod path m w)) [
      | inl (w', changed) ↦ rw (found, changed) (finished _)
      | inr (e, failed) ↦ rw (found, failed) (finished _)
    ]
    | inr (e, missing) ↦ rw missing (finished _)
  ]

  module _
      (steady : (file : ℕ) (e : IoError)
        → (local.copy file w).failure ≡ some e
        → e.kind ≢ connection_reset) where
    client_sender-Ends :
        (job : CopyJobSpec) (phase : TransferPhase)
        → Ends (with_client (client_sender local fuel compat recursive peak job phase w))
    unfolding client_sender
    client_sender-Ends job pre = list_send-Ends job
    client_sender-Ends job transfer = choice-Ends (is_remote job.source) _ _ (get_send-Ends job) (
        choice-Ends job.directory _ _ (mkdir_send-Ends job)
          (put_send-Ends local fs walk split compat server job peak w v steady splits))
    client_sender-Ends job post = set_meta_send-Ends job

    run_request-Ends :
        (job : CopyJobSpec) (phase : TransferPhase)
        → Ends (with_client (run_request local fuel compat recursive peak job phase w))
    unfolding run_request
    run_request-Ends job pre =
        choice-Ends (is_remote job.source) _ _ (client_sender-Ends job pre) (finished _)
    run_request-Ends job transfer = client_sender-Ends job transfer
    run_request-Ends job post =
        choice-Ends (is_remote job.destination && job.preserve && job.directory) _ _
          (client_sender-Ends job post)
          (choice-Ends (is_remote job.destination) _ _ (finished _)
            (set_local_mode-Ends job.destination.filename job.mode))

    -- Where every listing that the server's walk gives is split in the end, and no copy out of a local
    -- file ends in a reset connection: whatever else the two file systems do, whatever the job, the
    -- phase and the levels, and however the two ends go on, the exchange of a request and the handler
    -- of its stream ends, always in the same state and in the same number of steps.
    pub run_request-AlwaysEnds :
        (job : CopyJobSpec) (phase : TransferPhase)
        → (t : Connection Packet (Outcome W RequestResult) (Outcome V (Unit {0}))) × IsOver t
          × AlwaysEnds (with_client (run_request local fuel compat recursive peak job phase w)) t
    run_request-AlwaysEnds job phase =
        let (t, over, run) = run_request-Ends job phase in
        (t, over, Reaches-AlwaysEnds _ t over run)
