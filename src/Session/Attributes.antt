-- ===== src/Session/Attributes.antt =====
-- qcp/src/protocol/session/command.rs: the options of commands and the metadata of files, as they
-- travel under tags. Times are seconds since the epoch, where the system has them.
use qcp.Prelude.{ℕ, ◌≡◌, refl, Option, none, some, List, ◌==◌, if◌then◌else◌}
use qcp.Protocol.DataTag.{DataTag, TaggedData, with_unsigned}

pub data MetadataAttr : Type 0 where
  invalid mode_bits access_time modification_time : MetadataAttr

pub data CommandParam : Type 0 where
  invalid preserve_metadata recurse : CommandParam

abbrev pub metadata_to_u64 : MetadataAttr → ℕ
metadata_to_u64 MetadataAttr.invalid = 0
metadata_to_u64 mode_bits = 1
metadata_to_u64 access_time = 2
metadata_to_u64 modification_time = 3

abbrev pub metadata_try_from : ℕ → Option MetadataAttr
metadata_try_from n =
    if n == 0
    then some MetadataAttr.invalid
    else if n == 1
    then some mode_bits
    else if n == 2
    then some access_time
    else if n == 3
    then some modification_time
    else none

pub metadata_try_from-to_u64 : (a : MetadataAttr) → metadata_try_from (metadata_to_u64 a) ≡ some a
metadata_try_from-to_u64 MetadataAttr.invalid = refl
metadata_try_from-to_u64 mode_bits = refl
metadata_try_from-to_u64 access_time = refl
metadata_try_from-to_u64 modification_time = refl

instance abbrev pub metadata_tag : DataTag MetadataAttr
metadata_tag = record {
  to_u64 = metadata_to_u64;
  try_from = metadata_try_from;
  try_from-to_u64 = metadata_try_from-to_u64;
}

abbrev pub param_to_u64 : CommandParam → ℕ
param_to_u64 CommandParam.invalid = 0
param_to_u64 preserve_metadata = 1
param_to_u64 recurse = 2

abbrev pub param_try_from : ℕ → Option CommandParam
param_try_from n =
    if n == 0
    then some CommandParam.invalid
    else if n == 1
    then some preserve_metadata
    else if n == 2
    then some recurse
    else none

pub param_try_from-to_u64 : (p : CommandParam) → param_try_from (param_to_u64 p) ≡ some p
param_try_from-to_u64 CommandParam.invalid = refl
param_try_from-to_u64 preserve_metadata = refl
param_try_from-to_u64 recurse = refl

instance abbrev pub param_tag : DataTag CommandParam
param_tag = record {
  to_u64 = param_to_u64;
  try_from = param_try_from;
  try_from-to_u64 = param_try_from-to_u64;
}

abbrev pub Metadata : Type 0
Metadata = List (TaggedData MetadataAttr)

abbrev pub Options : Type 0
Options = List (TaggedData CommandParam)

unfoldable pub new_mode : ℕ → TaggedData MetadataAttr
unfolding with_unsigned
new_mode m = with_unsigned mode_bits m

unfoldable pub new_atime : ℕ → TaggedData MetadataAttr
unfolding with_unsigned
new_atime t = with_unsigned access_time t

unfoldable pub new_mtime : ℕ → TaggedData MetadataAttr
unfolding with_unsigned
new_mtime t = with_unsigned modification_time t
