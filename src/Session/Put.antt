-- ===== src/Session/Put.antt =====
-- qcp/src/session/put.rs: both ends of the PUT command. Progress bars and the transfer rate are left
-- out but for the peak, which is an argument.
pub mod Delivery
pub mod DiskFull
pub mod Ending
pub mod Live
pub mod Refusal
use qcp.Prelude.{
  ℕ, Bool, true, false, ◌||◌, Option, none, some, List, [], ◌∷◌, ◌==◌, if◌then◌else◌, length,
  Result, ok, err, not,
}
use qcp.Prelude.Text.{Str, codes, str_eq}
use qcp.Client.Job.{CopyJobSpec}
use qcp.Protocol.Compat.{Compatibility}
use qcp.Session.Effects.{
  M, ◌>>=◌, ◌>>◌, bail, ask, asked, put_world, ensure, unwrap, write_packet, read_packet,
  as_response, as_header, as_trailer, send_bytes, copy_in, send_ok, send_error, or_return,
  RequestResult, pure, accepted,
}
use qcp.Session.Exchange.{receive, finish}
use qcp.Session.Files.{
  FileSystem, FsMetadata, Copied, is_dir, is_file, open_with_meta, create_or_truncate,
  update_metadata,
}
use qcp.Session.Messages.{
  Status, directory_does_not_exist, IoError, ErrorKind, connection_reset, Failure, status, io,
  message, Response, into_result, FileHeaderV2, header_from, trailer_from, FileArgs2, Packet,
  command_, header_, trailer_, status_of,
}
use qcp.Session.Transfer.{header_for_file, trailer_for_file, put_command}
use qcp.Util.FilePath.{pop, push, file_name, ends_with}

abbrev pub done : ℕ → ℕ → RequestResult
done len peak = record {
  stats = record { payload_bytes = len; peak_transfer_rate = peak };
  list = none;
}

-- A reset connection: perhaps the server has said why.
closed : {W : Type 0} → ErrorKind → IoError → M W (Unit {0})
closed connection_reset e w = receive (λ o. elim (as_response o) [
  | ok r ↦ finish (err (message (codes "remote closed connection")), w)
  | err f ↦ finish (err (message (codes "connection closed unexpectedly")), w)
])
closed _ e w = finish (err (io e), w)

unfoldable pub check_sent : {W : Type 0} → FsMetadata → Copied → Option IoError → M W (Unit {0})
unfolding closed
check_sent meta c none =
    ensure (length c.sent == meta.len) (codes "File sent size doesn't match its metadata")
check_sent meta c (some e) = closed e.kind e

-- A file in the working directory has `.` as its parent.
abbrev or_here : Str → Str
or_here [] = codes "."
or_here (c ∷ s) = c ∷ s

module _ {W : Type 0} (fs : FileSystem W) where
  -- The completion check.
  put_check : ℕ → FsMetadata → M W RequestResult
  put_check peak meta = do
    last ← read_packet as_response
    ensure (status_of last == 0) (codes "PUTx failed on completion check")
    pure (done meta.len peak)

  -- The end of the client after the payload.
  pub put_finish : Compatibility → CopyJobSpec → ℕ → FsMetadata → M W RequestResult
  unfolding put_check
  put_finish compat job peak meta = do
    write_packet (trailer_ (trailer_for_file compat meta job.preserve))
    put_check peak meta

  -- From the first answer on.
  pub put_body : Compatibility → CopyJobSpec → ℕ → ℕ → FsMetadata → M W RequestResult
  unfolding put_finish check_sent
  put_body compat job peak file meta = do
    r ← read_packet as_response
    accepted (into_result r)
    c ← ask (fs.copy file)
    send_bytes c.sent
    check_sent meta c c.failure
    put_finish compat job peak meta

  -- From the opened file on.
  put_file : Compatibility → CopyJobSpec → ℕ → ℕ → FsMetadata → M W RequestResult
  unfolding put_body
  put_file compat job peak file meta = do
    ensure (not (is_dir meta)) (codes "PUT: Source is a directory")
    write_packet (command_ (put_command compat job))
    protocol_filename ← unwrap (file_name job.source.filename)
    write_packet (header_ (header_for_file compat meta protocol_filename))
    put_body compat job peak file meta

  unfoldable pub put_send : Compatibility → CopyJobSpec → ℕ → M W RequestResult
  unfolding put_file
  put_send compat job peak = do
    opened ← ask (open_with_meta fs job.source.filename)
    r ← asked opened
    put_file compat job peak r.0 r.1

  path_is_dir : Str → W → Bool
  path_is_dir path w = elim (fs.metadata path w) [ ok m ↦ is_dir m | err e ↦ false ]

  path_is_file : Str → W → Bool
  path_is_file path w = elim (fs.metadata path w) [ ok m ↦ is_file m | err e ↦ false ]

  -- Whether the name in the header is to be appended to the destination.
  unfoldable pub append_filename : Str → W → Result Status Bool
  unfolding path_is_dir path_is_file
  append_filename destination w =
      if str_eq destination [] || str_eq destination (codes ".")
      then ok true
      else if path_is_dir destination w || path_is_file destination w
      then ok (path_is_dir destination w)
      else if ends_with b'/' destination
      then err directory_does_not_exist
      else if path_is_dir (or_here (pop destination)) w
      then ok false
      else err directory_does_not_exist

  pub put_trailer : ℕ → M W (Unit {0})
  put_trailer file = do
    trailer ← read_packet as_trailer
    updated ← ask (update_metadata fs file (trailer_from trailer).metadata)
    w' ← asked updated
    put_world w'
    send_ok

  -- The end of the server, from the destination file on.
  pub put_payload : FileHeaderV2 → ℕ → M W (Unit {0})
  unfolding put_trailer
  put_payload header file = do
    send_ok
    result ← copy_in fs file header.size
    or_return result (λ _. put_trailer file)

  put_to : Str → Bool → M W (Unit {0})
  unfolding put_payload
  put_to destination append = do
    h ← read_packet as_header
    let header = header_from h
    let path = if append then push destination header.filename else destination
    created ← ask (create_or_truncate fs path header)
    or_return created (λ r. put_world r.1 >> put_payload header r.0)

  put_checked : Str → Result Status Bool → M W (Unit {0})
  unfolding put_to
  put_checked destination (err st) = send_error (status st)
  put_checked destination (ok append) = put_to destination append

  unfoldable pub put_handle : FileArgs2 → M W (Unit {0})
  unfolding append_filename put_checked
  put_handle args = do
    checked ← ask (append_filename args.filename)
    put_checked args.filename checked
