-- ===== src/Session/Directories.antt =====
-- qcp/src/session/mkdir.rs, set_meta.rs and ls.rs: both ends of the commands on directories. The walk
-- over a directory (the walkdir crate) is an operation of the remote's world.
pub mod Outcome
use qcp.Prelude.{
  ℕ, ◌%◌, Bool, true, false, not, ◌&&◌, Option, none, some, List, [], ◌∷◌, if◌then◌else◌, is_some,
  Result, ok, err,
}
use qcp.Prelude.Text.{Str, codes}
use qcp.Client.Job.{CopyJobSpec, is_remote}
use qcp.Protocol.Compat.{Compatibility, supports, mkdir_setmeta_ls}
use qcp.Protocol.DataTag.{from, tag, find_tag}
use qcp.Protocol.Variant.{into_unsigned}
use qcp.Session.Attributes.{
  MetadataAttr, mode_bits, access_time, modification_time, metadata_tag, Metadata, recurse,
  param_tag, Options,
}
use qcp.Session.Effects.{
  M, ◌>>=◌, ◌>>◌, bail, pure, ask, asked, put_world, ensure, write_packet, read_packet, as_response,
  as_list_data, send_ok, send_error, or_return, accepted, RequestResult, no_result,
}
use qcp.Session.Files.{FileSystem, FsMetadata, is_dir, is_file, to_tagged_data}
use qcp.Session.Listing.{ListData, ListEntry, split_by_size, join}
use qcp.Session.Messages.{
  it_is_a_file, IoError, status, message, response, Response, status_of, into_result,
  CreateDirectoryArgs, SetMetadataArgs, ListArgs, create_directory, set_metadata, list, command_,
  list_data_,
}

module _ {W : Type 0} where
  -- The answer to a command.
  unfoldable pub answered : M W RequestResult
  answered = do r ← read_packet as_response; accepted (into_result r); pure no_result

  unfoldable pub mkdir_send : Compatibility → CopyJobSpec → M W RequestResult
  unfolding answered
  mkdir_send compat job = do
    ensure (supports compat mkdir_setmeta_ls) (codes "Operation not supported by remote")
    ensure (is_remote job.destination) (codes "logic error: mkdir called for local destination")
    write_packet
        (command_ (create_directory (record { dir_name = job.destination.filename; options = [] })))
    answered

module _ {W : Type 0} (fs : FileSystem W) where
  unfoldable pub mkdir_at : Str → Result IoError FsMetadata → M W (Unit {0})
  mkdir_at path (ok meta) =
      if is_file meta
      then send_error (status it_is_a_file)
      else if is_dir meta
      then send_ok
      else bail (message (codes "mkdir: existing entity is neither file nor directory"))
  mkdir_at path (err e) = do
    result ← ask (fs.create_dir path)
    or_return result (λ w'. put_world w' >> send_ok)

  unfoldable pub mkdir_handle : CreateDirectoryArgs → M W (Unit {0})
  unfolding mkdir_at
  mkdir_handle args = do meta ← ask (fs.metadata args.dir_name); mkdir_at args.dir_name meta

  unfoldable pub set_meta_send : Compatibility → CopyJobSpec → M W RequestResult
  unfolding answered
  set_meta_send compat job = do
    ensure (supports compat mkdir_setmeta_ls) (codes "Operation not supported by remote")
    found ← ask (fs.metadata job.source.filename)
    localmeta ← asked found
    ensure (is_dir localmeta) (codes "SetMetadata currently only supports directories")
    write_packet (
        command_ (
          set_metadata (record {
            path = job.destination.filename;
            metadata = to_tagged_data localmeta false;
            options = [];
          })))
    answered

  -- One item of the metadata, before the rest.
  unfoldable pub set_attr : Str → Option MetadataAttr → Option ℕ → M W (Unit {0}) → M W (Unit {0})
  set_attr path none data_ rest = rest
  set_attr path (some MetadataAttr.invalid) data_ rest = rest
  set_attr path (some mode_bits) none rest = rest
  set_attr path (some mode_bits) (some m) rest = do
    result ← ask (fs.chmod path (m % 512))
    or_return result (λ w'. put_world w' >> rest)
  set_attr path (some access_time) data_ rest = bail (message (codes "unknown metadata tag"))
  set_attr path (some modification_time) data_ rest = bail (message (codes "unknown metadata tag"))

  unfoldable pub set_attrs : Str → Metadata → M W (Unit {0})
  unfolding set_attr
  set_attrs path [] = send_ok
  set_attrs path (md ∷ metadata) =
      set_attr path (tag md) (into_unsigned md.payload) (set_attrs path metadata)

  unfoldable pub set_meta_handle : SetMetadataArgs → M W (Unit {0})
  unfolding set_attrs
  set_meta_handle args = do
    found ← ask (fs.metadata args.path)
    or_return found (λ localmeta.
        if not (is_dir localmeta)
        then send_error (status it_is_a_file)
        else set_attrs args.path args.metadata)
