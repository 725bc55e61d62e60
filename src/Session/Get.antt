-- ===== src/Session/Get.antt =====
-- qcp/src/session/get.rs: both ends of the GET command. Progress bars and the transfer rate are left
-- out but for the peak, which is an argument.
pub mod Delivery
pub mod Refusal
use qcp.Prelude.{ℕ, Bool, none, some, ◌==◌, if◌then◌else◌, is_some, length, not}
use qcp.Prelude.Text.{Str, codes}
use qcp.Client.Job.{CopyJobSpec}
use qcp.Protocol.Compat.{Compatibility}
use qcp.Protocol.DataTag.{find_tag}
use qcp.Session.Attributes.{preserve_metadata, param_tag, Options}
use qcp.Session.Effects.{
  M, ◌>>=◌, ◌>>◌, ask, asked, put_world, ensure, unwrap, write_packet, read_packet, as_response,
  as_header, as_trailer, send_bytes, copy_in, send_ok, send_error, or_return, accepted,
  RequestResult, pure,
}
use qcp.Session.Files.{
  FileSystem, FsMetadata, is_dir, open_with_meta, create_or_truncate, update_metadata,
}
use qcp.Session.Messages.{
  it_is_a_directory, status, into_result, FileHeaderV2, header_from, trailer_from, FileArgs2,
  command_, header_, trailer_,
}
use qcp.Session.Put.{done}
use qcp.Session.Transfer.{header_for_file, trailer_for_file, get_command}
use qcp.Util.FilePath.{file_name}

-- `find_option(PreserveMetadata).is_some()`
abbrev pub preserves : Options → Bool
preserves options = is_some (find_tag preserve_metadata options)

module _ {W : Type 0} (fs : FileSystem W) where
  get_trailer : ℕ → M W (Unit {0})
  get_trailer file = do
    trailer ← read_packet as_trailer
    updated ← ask (update_metadata fs file (trailer_from trailer).metadata)
    w' ← asked updated
    put_world w'

  -- The end of the client, from the header on.
  get_payload : CopyJobSpec → ℕ → FileHeaderV2 → M W RequestResult
  unfolding get_trailer
  get_payload job peak header = do
    created ← ask (create_or_truncate fs job.destination.filename header)
    c ← asked created
    put_world c.1
    result ← copy_in fs c.0 header.size
    asked result
    get_trailer c.0
    pure (done header.size peak)

  -- From the answer on.
  get_body : CopyJobSpec → ℕ → M W RequestResult
  unfolding get_payload
  get_body job peak = do
    r ← read_packet as_response
    accepted (into_result r)
    h ← read_packet as_header
    get_payload job peak (header_from h)

  unfoldable pub get_send : Compatibility → CopyJobSpec → ℕ → M W RequestResult
  unfolding get_body
  get_send compat job peak = do write_packet (command_ (get_command compat job)); get_body job peak

  -- The end of the server, from the opened file on.
  get_file : Compatibility → FileArgs2 → ℕ → FsMetadata → M W (Unit {0})
  get_file compat args file meta = do
    send_ok
    protocol_filename ← unwrap (file_name args.filename)
    write_packet (header_ (header_for_file compat meta protocol_filename))
    c ← ask (fs.copy file)
    send_bytes c.sent
    ensure (not (is_some c.failure)) (codes "copy ended prematurely")
    ensure (length c.sent == meta.len) (codes "logic error: file sent size doesn't match metadata")
    write_packet (trailer_ (trailer_for_file compat meta (preserves args.options)))

  unfoldable pub get_handle : Compatibility → FileArgs2 → M W (Unit {0})
  unfolding get_file
  get_handle compat args = do
    opened ← ask (open_with_meta fs args.filename)
    or_return opened (λ r.
        if is_dir r.1 then send_error (status it_is_a_directory) else get_file compat args r.0 r.1)
