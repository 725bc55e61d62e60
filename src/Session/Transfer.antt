-- ===== src/Session/Transfer.antt =====
-- qcp/src/protocol/session/file_transfer.rs and the commands of qcp/src/session/get.rs and put.rs: what
-- is sent about a file, by the agreed level.
pub mod Versions
use qcp.Prelude.{Bool, true, false, List, [], ◌∷◌, if◌then◌else◌}
use qcp.Prelude.Text.{Str}
use qcp.Client.Job.{CopyJobSpec}
use qcp.Protocol.Compat.{Compatibility, supports, get2_put2}
use qcp.Protocol.DataTag.{from}
use qcp.Session.Attributes.{Options, preserve_metadata, param_tag}
use qcp.Session.Files.{FsMetadata, to_tagged_data}
use qcp.Session.Messages.{
  FileHeader, header_v1, header_v2, FileTrailer, trailer_v1, trailer_v2, Command, get, put, get2,
  put2,
}

unfoldable pub header_for_file : Compatibility → FsMetadata → Str → FileHeader
header_for_file compat meta protocol_filename =
    if supports compat get2_put2
    then header_v2 (record {
      size = meta.len;
      filename = protocol_filename;
      metadata = to_tagged_data meta false;
    })
    else header_v1 (record { size = meta.len; filename = protocol_filename })

unfoldable pub trailer_for_file : Compatibility → FsMetadata → Bool → FileTrailer
trailer_for_file compat meta preserve =
    if supports compat get2_put2
    then trailer_v2 (record { metadata = if preserve then to_tagged_data meta true else [] })
    else trailer_v1

abbrev pub preserve_options : Bool → Options
preserve_options true = from preserve_metadata ∷ []
preserve_options false = []

unfoldable pub put_command : Compatibility → CopyJobSpec → Command
put_command compat job =
    if supports compat get2_put2
    then put2
        (record { filename = job.destination.filename; options = preserve_options job.preserve })
    else put (record { filename = job.destination.filename })

unfoldable pub get_command : Compatibility → CopyJobSpec → Command
get_command compat job =
    if supports compat get2_put2
    then get2 (record { filename = job.source.filename; options = preserve_options job.preserve })
    else get (record { filename = job.source.filename })
