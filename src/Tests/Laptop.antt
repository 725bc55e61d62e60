-- ===== src/Tests/Laptop.antt =====
-- Two small file systems, and what the sessions between them meet there.
use qcp.Prelude.{ℕ, ◌≡◌, refl, Bool, true, false, Option, none, some, List, [], ◌∷◌, Result, ok}
use qcp.Prelude.Text.{Str, codes}
use qcp.Client.Job.{CopyJobSpec, FileSpec}
use qcp.Protocol.Compat.{level, supports}
use qcp.Session.Exchange.Progress.{write_all}
use qcp.Session.Files.{
  FsMetadata, regular, directory, open_with_meta, create_or_truncate, update_metadata,
  apply_qcp_meta, to_tagged_data, masked, gather,
}
use qcp.Session.Attributes.{new_mode, new_atime, new_mtime}
use qcp.Protocol.DataTag.{tag}
use qcp.Protocol.Variant.{into_unsigned}
use qcp.Util.FilePath.{file_name, push}
use qcp.Session.Listing.{ListData, ListEntry, SplitError}
use qcp.Session.Messages.{header_from, trailer_from}
use qcp.Session.Put.{append_filename}
use qcp.Session.Put.Delivery.{target}
use qcp.Session.Transfer.{header_for_file, trailer_for_file}
use qcp.Tests.Disk.{Disk, disk, fresh}

abbrev pub here : FileSpec
here = record { user_at_host = none; filename = codes "in/a" }

abbrev pub there : FileSpec
there = record { user_at_host = some (codes "host"); filename = codes "out" }

abbrev pub upload : CopyJobSpec
upload = record {
  source = here;
  destination = there;
  user_at_host = codes "host";
  preserve = true;
  directory = false;
  mode = none;
}

abbrev pub a_meta : FsMetadata
a_meta = record {
  kind = regular;
  len = 2;
  permissions = 33188;
  accessed = some 7;
  modified = some 5;
}

abbrev pub laptop : Disk
laptop = record { path = codes "in/a"; meta = a_meta; bytes = 1 ∷ 2 ∷ [] } ∷ []

abbrev pub server_disk : Disk
server_disk = fresh directory (codes "out") 493 ∷ []

abbrev pub arrived : List ℕ → FsMetadata → Disk
arrived bs m =
    fresh directory (codes "out") 493 ∷ record { path = codes "out/a"; meta = m; bytes = bs } ∷ []

abbrev pub new_meta : ℕ → Option ℕ → Option ℕ → FsMetadata
new_meta mode accessed modified = record {
  kind = regular;
  len = 0;
  permissions = mode;
  accessed = accessed;
  modified = modified;
}

abbrev pub no_walk : Str → Bool → Disk → Result Str (List ListEntry)
no_walk path recursive d = ok []

abbrev pub whole : ListData → Result SplitError (List ListData)
whole d = ok (d ∷ [])

pub opened : open_with_meta (disk 9) (codes "in/a") laptop ≡ ok (0, a_meta)
unfolding open_with_meta
opened = refl

pub named : file_name (codes "in/a") ≡ some (codes "a")
unfolding file_name
named = refl

pub resolved : append_filename (disk 9) (codes "out") server_disk ≡ ok true
unfolding append_filename
resolved = refl

pub created :
    create_or_truncate
      (disk 9)
      (target true (codes "out") (codes "a"))
      (header_from (header_for_file (level 4) a_meta (codes "a")))
      server_disk
    ≡ ok (1, arrived [] (new_meta 420 none none))
unfolding create_or_truncate header_for_file header_from supports push apply_qcp_meta to_tagged_data
    new_mode tag into_unsigned masked
created = refl

pub created_small :
    create_or_truncate
      (disk 1)
      (target true (codes "out") (codes "a"))
      (header_from (header_for_file (level 4) a_meta (codes "a")))
      server_disk
    ≡ ok (1, arrived [] (new_meta 420 none none))
unfolding create_or_truncate header_for_file header_from supports push apply_qcp_meta to_tagged_data
    new_mode tag into_unsigned masked
created_small = refl

pub resolved_small : append_filename (disk 1) (codes "out") server_disk ≡ ok true
unfolding append_filename
resolved_small = refl

pub written :
    write_all (disk 9) 1 (1 ∷ 2 ∷ []) (arrived [] (new_meta 420 none none))
    ≡ ok (arrived (1 ∷ 2 ∷ []) (new_meta 420 none none))
unfolding write_all
written = refl

pub updated :
    update_metadata
      (disk 9)
      1
      (trailer_from (trailer_for_file (level 4) a_meta true)).metadata
      (arrived (1 ∷ 2 ∷ []) (new_meta 420 none none))
    ≡ ok (arrived (1 ∷ 2 ∷ []) (new_meta 420 (some 7) (some 5)))
unfolding update_metadata trailer_for_file trailer_from supports gather to_tagged_data new_mode
    new_atime new_mtime tag into_unsigned
updated = refl
