-- ===== src/Session/Transfer/Versions.antt =====
-- What the receiver of a file makes of its header and trailer, whatever their version.
use qcp.Prelude.{◌≡◌, refl, Bool, true, false, Bool-cases, inl, inr}
use qcp.Prelude.Text.{Str}
use qcp.Protocol.Compat.{Compatibility, supports, get2_put2}
use qcp.Protocol.DataTag.{find_tag, from}
use qcp.Session.Attributes.{param_tag, metadata_tag}
use qcp.Session.Files.{FsMetadata}
use qcp.Session.Get.{preserves}
use qcp.Session.Messages.{header_from}
use qcp.Session.Transfer.{header_for_file, preserve_options}

pub header_for_file_lem :
    (compat : Compatibility) (meta : FsMetadata) (name : Str)
    → ((header_from (header_for_file compat meta name)).size ≡ meta.len)
      × ((header_from (header_for_file compat meta name)).filename ≡ name)
unfolding header_for_file header_from
header_for_file_lem compat meta name = elim (Bool-cases (supports compat get2_put2)) [
  | inl two ↦ rw two (refl, refl)
  | inr one ↦ rw one (refl, refl)
]

pub preserves-preserve_options : (b : Bool) → preserves (preserve_options b) ≡ b
unfolding find_tag from
preserves-preserve_options true = refl
preserves-preserve_options false = refl
