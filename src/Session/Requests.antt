-- ===== src/Session/Requests.antt =====
-- qcp/src/session/factory.rs, qcp/src/server/stream.rs and `run_request` of
-- qcp/src/client/main_loop.rs: which command a copy job sends, and what the server does with it.
pub mod Clients
pub mod Ending
pub mod Servers
use qcp.Prelude.{
  ℕ, Bool, true, false, not, ◌&&◌, Option, none, some, List, if◌then◌else◌, Result, ok, err,
}
use qcp.Prelude.Text.{Str}
use qcp.Client.Job.{CopyJobSpec, is_remote}
use qcp.Client.Transfers.{TransferPhase, pre, transfer, post}
use qcp.Protocol.Compat.{Compatibility}
use qcp.Session.Directories.{mkdir_send, mkdir_handle, set_meta_send, set_meta_handle}
use qcp.Session.Effects.{
  M, ◌>>=◌, ◌>>◌, pure, bail, ask, asked, put_world, RequestResult, no_result, as_command,
}
use qcp.Session.Exchange.{receive, finish}
use qcp.Session.Files.{FileSystem}
use qcp.Session.Get.{get_send, get_handle}
use qcp.Session.List.{list_send, list_handle}
use qcp.Session.Listing.{ListData, ListEntry, SplitError}
use qcp.Session.Messages.{
  Command, get, put, get2, put2, create_directory, set_metadata, list, args_from, Packet, Failure,
  panic,
}
use qcp.Session.Put.{put_send, put_handle}

module _ {W : Type 0} (fs : FileSystem W) (fuel : ℕ) (compat : Compatibility) (recursive : Bool)
    (peak : ℕ) where
  -- `client_sender` with `send`
  unfoldable pub client_sender : CopyJobSpec → TransferPhase → M W RequestResult
  client_sender job pre = list_send fuel compat job recursive
  client_sender job transfer =
      if is_remote job.source
      then get_send fs compat job peak
      else if job.directory
      then mkdir_send compat job
      else put_send fs compat job peak
  client_sender job post = set_meta_send fs compat job

  -- The mode of a local directory that is to be preserved.
  set_local_mode : Str → Option ℕ → M W RequestResult
  set_local_mode path none = pure no_result
  set_local_mode path (some m) = do
    found ← ask (fs.metadata path)
    meta ← asked found
    changed ← ask (fs.chmod path m)
    w' ← asked changed
    put_world w'
    pure no_result

  unfoldable pub run_request : CopyJobSpec → TransferPhase → M W RequestResult
  unfolding client_sender set_local_mode
  run_request job pre = if is_remote job.source then client_sender job pre else bail panic
  run_request job transfer = client_sender job transfer
  run_request job post =
      if is_remote job.destination && job.preserve && job.directory
      then client_sender job post
      else if is_remote job.destination
      then pure no_result
      else set_local_mode job.destination.filename job.mode

module _ {W : Type 0} (fs : FileSystem W) (walk : Str → Bool → W → Result Str (List ListEntry))
    (split : ListData → Result SplitError (List ListData)) (compat : Compatibility) where
  -- `command_handler` with `handle`
  unfoldable pub command_handler : Command → M W (Unit {0})
  command_handler (get args) = get_handle fs compat (args_from args)
  command_handler (get2 args) = get_handle fs compat args
  command_handler (put args) = put_handle fs (args_from args)
  command_handler (put2 args) = put_handle fs args
  command_handler (create_directory args) = mkdir_handle fs args
  command_handler (set_metadata args) = set_meta_handle fs args
  command_handler (list args) = list_handle fs walk split args

  -- The end of the stream in place of a command is no error.
  dispatch : Result Failure Command → Option Packet → M W (Unit {0})
  unfolding command_handler
  dispatch r none = pure tt
  dispatch (ok command) (some p) = command_handler command
  dispatch (err e) (some p) = bail e

  unfoldable pub handle_stream : M W (Unit {0})
  unfolding dispatch
  handle_stream w = receive (λ o. dispatch (as_command o) o w)
