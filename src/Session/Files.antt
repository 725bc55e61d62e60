-- ===== src/Session/Files.antt =====
-- qcp/src/util/file_ext.rs and metadata_ext.rs, as they are compiled for Unix: files with the metadata
-- of the protocol. The system calls are operations of `FileSystem` over a world of any type; an open
-- file is the number of its descriptor.
use qcp.Prelude.{
  ℕ, ◌%◌, ◌-◌, ◌^◌, Bool, true, false, ◌||◌, Option, none, some, List, [], ◌∷◌, ◌++◌, if◌then◌else◌,
  Result, ok, err, ◌>>=◌,
}
use Prim.Native.Nat.{bit_and, bit_xor}
use qcp.Prelude.Text.{Str, codes}
use qcp.Protocol.Variant.{into_unsigned}
use qcp.Protocol.DataTag.{TaggedData, tag}
use qcp.Session.Attributes.{
  MetadataAttr, mode_bits, access_time, modification_time, metadata_tag, Metadata, new_mode,
  new_atime, new_mtime,
}
use qcp.Session.Messages.{IoError, unsupported, other, FileHeaderV2}
use qcp.Util.FilePath.{push}

pub data FileKind : Type 0 where
  regular directory special : FileKind

-- `std::fs::Metadata`, with its times as seconds since the epoch where the system has them.
pub record FsMetadata : Type 0 where
  pub kind : FileKind
  pub len : ℕ
  pub permissions : ℕ
  pub accessed : Option ℕ
  pub modified : Option ℕ

abbrev pub is_dir : FsMetadata → Bool
is_dir m = elim m.kind [ directory ↦ true | _ ↦ false ]

abbrev pub is_file : FsMetadata → Bool
is_file m = elim m.kind [ regular ↦ true | _ ↦ false ]

-- What copying a file into a stream gets through, and the error that ends it before its time.
pub record Copied : Type 0 where
  pub sent : List ℕ
  pub failure : Option IoError

pub record FileSystem (W : Type 0) : Type 0 where
  pub metadata : Str → W → Result IoError FsMetadata
  pub open_file : Str → W → Result IoError ℕ
  pub fstat : ℕ → W → Result IoError FsMetadata
  pub copy : ℕ → W → Copied
  pub umask : ℕ
  -- `create(true).truncate(true).write(true)`, with the mode for a new file.
  pub create : Str → Option ℕ → W → Result IoError (ℕ × W)
  pub write : ℕ → ℕ → W → Result IoError W
  pub set_times : ℕ → Option ℕ → Option ℕ → W → Result IoError W
  pub fchmod : ℕ → ℕ → W → Result IoError W
  pub chmod : Str → ℕ → W → Result IoError W
  pub create_dir : Str → W → Result IoError W

-- `FsMetadataExt::mode`
unfoldable pub mode : FsMetadata → ℕ
mode m = m.permissions % 512

abbrev pub push_time : (ℕ → TaggedData MetadataAttr) → Option ℕ → Metadata → Metadata
push_time f none vec = vec
push_time f (some t) vec = vec ++ f t ∷ []

unfoldable pub to_tagged_data : FsMetadata → Bool → Metadata
unfolding mode
to_tagged_data m false = new_mode (mode m) ∷ []
to_tagged_data m true =
    push_time new_mtime m.modified (push_time new_atime m.accessed (new_mode (mode m) ∷ []))

-- The mode under which a new file is created: `(m & 0o777) as u32 & !umask`.
unfoldable pub masked : ℕ → ℕ → ℕ
masked umask m = bit_and (m % 512) (bit_xor umask (2 ^ 32 - 1))

abbrev pub chosen : ℕ → Option MetadataAttr → Option ℕ → Option ℕ → Option ℕ
chosen umask (some mode_bits) (some m) earlier = some (masked umask m)
chosen umask _ _ earlier = earlier

-- `apply_qcp_meta`: the last mode in the list is the one that the options keep.
unfoldable pub apply_qcp_meta : ℕ → Metadata → Option ℕ → Option ℕ
apply_qcp_meta umask [] options = options
apply_qcp_meta umask (md ∷ qcp_meta) options =
    apply_qcp_meta umask qcp_meta (chosen umask (tag md) (into_unsigned md.payload) options)

-- What `update_metadata` gathers before it changes the file.
pub record Changes : Type 0 where
  pub accessed : Option ℕ
  pub modified : Option ℕ
  pub new_perms : Option ℕ
  pub changed : Bool

abbrev pub no_changes : Changes
no_changes = record { accessed = none; modified = none; new_perms = none; changed = false }

abbrev pub note : Option MetadataAttr → Option ℕ → Changes → Changes
note (some mode_bits) (some m) c = record c { new_perms = some (m % 512); changed = true }
note (some access_time) (some t) c = record c { accessed = some t; changed = true }
note (some modification_time) (some t) c = record c { modified = some t; changed = true }
note _ _ c = c

unfoldable pub gather : Metadata → Changes → Changes
gather [] c = c
gather (md ∷ metadata) c = gather metadata (note (tag md) (into_unsigned md.payload) c)

module _ {W : Type 0} (fs : FileSystem W) where
  not_regular : FsMetadata → IoError → Result IoError (Unit {0})
  not_regular m e = if is_file m || is_dir m then ok tt else err e

  unfoldable pub open_with_meta : Str → W → Result IoError (ℕ × FsMetadata)
  unfolding not_regular
  open_with_meta path w = fs.open_file path w >>= λ fh. fs.fstat fh w >>= λ meta.
      not_regular meta (record { kind = unsupported; text = codes "Source is not a regular file" })
      >>= λ _. ok (fh, meta)

  -- The path that is opened for writing, given what is there.
  destination : Str → Str → Result IoError FsMetadata → Result IoError Str
  unfolding not_regular
  destination path filename (err e) = ok path
  destination path filename (ok meta) =
      if is_dir meta
      then ok (push path filename)
      else (not_regular meta (record {
        kind = other;
        text = codes "Destination path exists but is not a regular file";
      })
          >>= λ _. ok path)

  unfoldable pub create_or_truncate : Str → FileHeaderV2 → W → Result IoError (ℕ × W)
  unfolding destination
  create_or_truncate path header w =
      destination path header.filename (fs.metadata path w) >>= λ dest_path.
      fs.create dest_path (apply_qcp_meta fs.umask header.metadata none) w

  apply_perms : ℕ → Option ℕ → W → Result IoError W
  apply_perms file none w = ok w
  apply_perms file (some p) w = fs.fchmod file p w

  unfoldable pub update_metadata : ℕ → Metadata → W → Result IoError W
  unfolding apply_perms
  update_metadata file metadata w =
      let c = gather metadata no_changes in
      fs.fstat file w >>= λ meta.
      (if c.changed
        then (fs.set_times file c.accessed c.modified w >>= λ w'. apply_perms file c.new_perms w')
        else ok w)
