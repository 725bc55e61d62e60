-- ===== src/Session/Requests/Servers.antt =====
-- The handlers of a server that, once they have their command, wait for nothing more.
use qcp.Prelude.{
  ◌≡◌, false, ℕ, is_some, ◌≢◌, refl, Bool, Option, none, some, List, [], ◌∷◌, Result, ok, err,
}
use qcp.Prelude.Text.{Str}
use qcp.Protocol.Compat.{Compatibility}
use qcp.Protocol.DataTag.{find_tag}
use qcp.Session.Attributes.{
  recurse, param_tag, MetadataAttr, mode_bits, access_time, modification_time, Metadata,
}
use qcp.Session.Directories.{mkdir_at, mkdir_handle, set_attr, set_attrs, set_meta_handle}
use qcp.Session.Effects.{M, as_command}
use qcp.Session.Exchange.Ending.{
  Quiet, Quiet-Lively, quiet_rules, bind-Quiet, ask-Quiet, or_return-Quiet, if-Quiet,
  asked_for-Quiet, then-Quiet, send_ok-Quiet, write_packet-Quiet,
}
use qcp.Session.Exchange.Live.{Lively, lively, Lively-Live, lively_rules}
use qcp.Session.Put.Live.{put_handle-Lively}
use qcp.Session.Requests.{command_handler, dispatch, handle_stream}
use qcp.Session.Files.{FileSystem, FsMetadata, is_file}
use qcp.Session.Get.{get_handle}
use qcp.Session.List.{
  file_listing, SplittingsEnd, write_packets, send_packets, send_entries, list_handle,
}
use qcp.Session.Listing.{ListData, ListEntry, SplitError, encoding, endless}
use qcp.Session.Messages.{
  list_data_, Failure, Packet, Command, get, get2, put, put2, create_directory, set_metadata, list,
  FileArgs2, CreateDirectoryArgs, SetMetadataArgs, ListArgs, IoError,
}

module _ {W : Type 0} (fs : FileSystem W) where
  pub get_handle-Quiet :
      (compat : Compatibility) (args : FileArgs2) → Quiet (get_handle fs compat args)
  unfolding get_handle
  get_handle-Quiet compat args = search (quiet_rules) depth 30 fits 5000

  mkdir_at-Quiet : (path : Str) (found : Result IoError FsMetadata) → Quiet (mkdir_at fs path found)
  unfolding mkdir_at
  mkdir_at-Quiet path (ok meta) = search (quiet_rules)
  mkdir_at-Quiet path (err e) = search (quiet_rules)

  pub mkdir_handle-Quiet : (args : CreateDirectoryArgs) → Quiet (mkdir_handle fs args)
  unfolding mkdir_handle
  mkdir_handle-Quiet args = search (quiet_rules, mkdir_at-Quiet)

  set_attr-Quiet :
      (path : Str) (a : Option MetadataAttr) (n : Option ℕ) (rest : M W (Unit {0}))
      → Quiet rest
      → Quiet (set_attr fs path a n rest)
  unfolding set_attr
  set_attr-Quiet path none n rest h = h
  set_attr-Quiet path (some MetadataAttr.invalid) n rest h = h
  set_attr-Quiet path (some mode_bits) none rest h = h
  set_attr-Quiet path (some mode_bits) (some m) rest h = search (quiet_rules, h)
  set_attr-Quiet path (some access_time) n rest h = search (quiet_rules)
  set_attr-Quiet path (some modification_time) n rest h = search (quiet_rules)

  set_attrs-Quiet : (path : Str) (metadata : Metadata) → Quiet (set_attrs fs path metadata)
  unfolding set_attrs
  set_attrs-Quiet path [] = search (quiet_rules)
  set_attrs-Quiet path (md ∷ metadata) =
      set_attr-Quiet path _ _ (set_attrs fs path metadata) (set_attrs-Quiet path metadata)

  pub set_meta_handle-Quiet : (args : SetMetadataArgs) → Quiet (set_meta_handle fs args)
  unfolding set_meta_handle
  set_meta_handle-Quiet args = search (quiet_rules, set_attrs-Quiet)

module _ {W : Type 0} where
  write_packets-Quiet : (ps : List ListData) → Quiet (write_packets {W = W} ps)
  unfolding write_packets
  write_packets-Quiet [] = search (quiet_rules)
  write_packets-Quiet (p ∷ ps) = search (quiet_rules, write_packets-Quiet ps)

  send_packets-Quiet :
      (r : Result SplitError (List ListData)) → r ≢ err endless → Quiet (send_packets {W = W} r)
  unfolding send_packets
  send_packets-Quiet (ok ps) h = search (quiet_rules, write_packets-Quiet)
  send_packets-Quiet (err encoding) h = search (quiet_rules)
  send_packets-Quiet (err endless) h = absurd (h refl)

  send_entries-Quiet :
      (split : ListData → Result SplitError (List ListData)) (r : Result Str (List ListEntry))
      → ((entries : List ListEntry)
          → r ≡ ok entries
          → split (record { entries = entries; more_to_come = false }) ≢ err endless)
      → Quiet (send_entries {W = W} split r)
  unfolding send_entries
  send_entries-Quiet split (ok entries) h = send_packets-Quiet _ (h entries refl)
  send_entries-Quiet split (err text) h = search (quiet_rules)

module _ {W : Type 0} (fs : FileSystem W) (walk : Str → Bool → W → Result Str (List ListEntry))
    (split : ListData → Result SplitError (List ListData)) (splits : SplittingsEnd walk split) where
  pub list_handle-Quiet : (args : ListArgs) → Quiet (list_handle fs walk split args)
  unfolding list_handle
  list_handle-Quiet args =
      let deep = is_some (find_tag recurse args.options) in
      bind-Quiet _ _ (ask-Quiet (fs.metadata args.path)) (λ found. or_return-Quiet found _ (λ meta.
        let answer = list_data_ (file_listing args.path meta) in
        if-Quiet (is_file meta) _ _ (then-Quiet _ _ send_ok-Quiet (write_packet-Quiet answer)) (
          asked_for-Quiet (walk args.path deep) (send_entries split)
            (λ w. send_entries-Quiet split (walk args.path deep w) (splits args.path deep w)))))

  command_handler-Lively :
      (compat : Compatibility) (c : Command) → Lively (command_handler fs walk split compat c)
  unfolding command_handler
  command_handler-Lively compat (get args) = Quiet-Lively (get_handle-Quiet fs compat _)
  command_handler-Lively compat (get2 args) = Quiet-Lively (get_handle-Quiet fs compat _)
  command_handler-Lively compat (put args) = put_handle-Lively fs _
  command_handler-Lively compat (put2 args) = put_handle-Lively fs _
  command_handler-Lively compat (create_directory args) = Quiet-Lively (mkdir_handle-Quiet fs _)
  command_handler-Lively compat (set_metadata args) = Quiet-Lively (set_meta_handle-Quiet fs _)
  command_handler-Lively compat (list args) = Quiet-Lively (list_handle-Quiet _)

  dispatch-Lively :
      (compat : Compatibility) (r : Result Failure Command) (o : Option Packet)
      → Lively (dispatch fs walk split compat r o)
  unfolding dispatch
  dispatch-Lively compat r none = search (lively_rules)
  dispatch-Lively compat (ok command) (some p) = command_handler-Lively compat command
  dispatch-Lively compat (err e) (some p) = search (lively_rules)

  -- Where every splitting ends, so does what the server does on its own.
  pub handle_stream-Lively : (compat : Compatibility) → Lively (handle_stream fs walk split compat)
  unfolding handle_stream
  handle_stream-Lively compat =
      lively (λ w o. Lively-Live (dispatch-Lively compat (as_command o) o) w)
