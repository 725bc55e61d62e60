-- ===== src/Session/Messages.antt =====
-- qcp/src/protocol/session: the messages on the streams of a connection, with the conversions
-- between their versions. What serde makes of them is in Protocol/Framing.
use qcp.Prelude.{ℕ, Option, [], ◌==◌, if◌then◌else◌, Result, ok, err}
use qcp.Prelude.Text.{Str}
use qcp.Session.Attributes.{Metadata, Options}
use qcp.Session.Listing.{ListData}

pub data Status : Type 0 where
  ok_ file_not_found incorrect_permissions directory_does_not_exist io_error disk_full : Status
  not_yet_implemented it_is_a_directory it_is_a_file unknown_error encoding_failed : Status

-- `value as u64`
unfoldable pub status_to_u64 : Status → ℕ
status_to_u64 ok_ = 0
status_to_u64 file_not_found = 1
status_to_u64 incorrect_permissions = 2
status_to_u64 directory_does_not_exist = 3
status_to_u64 io_error = 4
status_to_u64 disk_full = 5
status_to_u64 not_yet_implemented = 6
status_to_u64 it_is_a_directory = 7
status_to_u64 it_is_a_file = 8
status_to_u64 unknown_error = 9
status_to_u64 encoding_failed = 10

pub record ResponseV1 : Type 0 where
  pub status : ℕ
  pub message : Option Str

pub data Response : Type 0 where
  response_v1 : ResponseV1 → Response

unfoldable pub status_of : Response → ℕ
status_of (response_v1 r) = r.status

-- What an error of `std::io` shows to the program.
pub data ErrorKind : Type 0 where
  not_found permission_denied is_a_directory storage_full connection_reset : ErrorKind
  unsupported unexpected_eof already_exists other : ErrorKind

pub record IoError : Type 0 where
  pub kind : ErrorKind
  pub text : Str

-- The errors of `anyhow` by what they can be downcast to; `unwrap` of nothing is a panic.
pub data Failure : Type 0 where
  status : Status → Failure
  io : IoError → Failure
  response : Response → Failure
  message : Str → Failure
  panic : Failure

unfoldable pub into_result : Response → Result Failure Response
unfolding status_of
into_result r = if status_of r == 0 then ok r else err (response r)

pub record FileHeaderV1 : Type 0 where
  pub size : ℕ
  pub filename : Str

pub record FileHeaderV2 : Type 0 where
  pub size : ℕ
  pub filename : Str
  pub metadata : Metadata

pub data FileHeader : Type 0 where
  header_v1 : FileHeaderV1 → FileHeader
  header_v2 : FileHeaderV2 → FileHeader

unfoldable pub header_from : FileHeader → FileHeaderV2
header_from (header_v2 hdr) = hdr
header_from (header_v1 hdr) = record { size = hdr.size; filename = hdr.filename; metadata = [] }

pub record FileTrailerV2 : Type 0 where
  pub metadata : Metadata

pub data FileTrailer : Type 0 where
  trailer_v1 : FileTrailer
  trailer_v2 : FileTrailerV2 → FileTrailer

unfoldable pub trailer_from : FileTrailer → FileTrailerV2
trailer_from (trailer_v2 t) = t
trailer_from trailer_v1 = record { metadata = [] }

-- `GetArgs` and `PutArgs`, and their second versions.
pub record FileArgs : Type 0 where
  pub filename : Str

pub record FileArgs2 : Type 0 where
  pub filename : Str
  pub options : Options

unfoldable pub args_from : FileArgs → FileArgs2
args_from v1 = record { filename = v1.filename; options = [] }

pub record CreateDirectoryArgs : Type 0 where
  pub dir_name : Str
  pub options : Options

pub record SetMetadataArgs : Type 0 where
  pub path : Str
  pub metadata : Metadata
  pub options : Options

pub record ListArgs : Type 0 where
  pub path : Str
  pub options : Options

pub data Command : Type 0 where
  get : FileArgs → Command
  put : FileArgs → Command
  get2 : FileArgs2 → Command
  put2 : FileArgs2 → Command
  create_directory : CreateDirectoryArgs → Command
  set_metadata : SetMetadataArgs → Command
  list : ListArgs → Command

-- What is under way on a stream, message by message and byte by byte.
pub data Packet : Type 0 where
  command_ : Command → Packet
  response_ : Response → Packet
  header_ : FileHeader → Packet
  trailer_ : FileTrailer → Packet
  list_data_ : ListData → Packet
  byte_ : ℕ → Packet
