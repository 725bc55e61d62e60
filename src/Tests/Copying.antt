-- ===== src/Tests/Copying.antt =====
-- The commands that copy a file, between two small file systems.
use qcp.Prelude.{◌≡◌, ◌≢◌, inl, refl, true, none, some, List, [], ◌∷◌, ok, err}
use qcp.Prelude.Text.{codes}
use qcp.Client.Job.{CopyJobSpec}
use qcp.Protocol.Compat.{level, supports}
use qcp.Session.Effects.{respond, error_to_status}
use qcp.Session.Exchange.{connection, finish}
use qcp.Session.Exchange.Progress.{AlwaysEnds, write_all}
use qcp.Session.Files.{open_with_meta, create_or_truncate, apply_qcp_meta, to_tagged_data, masked}
use qcp.Session.Attributes.{new_mode}
use qcp.Protocol.DataTag.{tag}
use qcp.Protocol.Variant.{into_unsigned}
use qcp.Util.FilePath.{push, pop, ends_with}
use qcp.Session.Messages.{
  header_from, io, status, response, message, status_of, directory_does_not_exist, header_, Packet,
}
use qcp.Session.Get.{get_send}
use qcp.Session.Get.Delivery.{get_delivers}
use qcp.Session.Get.Refusal.{get_refused}
use qcp.Session.Get.Refusal as Get
use qcp.Session.Put.Refusal as Put
use qcp.Session.Put.Refusal.{put_refused}
use qcp.Session.Put.DiskFull.{put_write_fails}
use qcp.Session.Put.{done, put_send, append_filename}
use qcp.Session.Put.Delivery.{put_delivers}
use qcp.Session.Requests.{handle_stream}
use qcp.Session.Transfer.{header_for_file}
use qcp.Tests.Disk.{Disk, disk, missing, full}
use qcp.Tests.Laptop.{
  upload, a_meta, laptop, server_disk, arrived, new_meta, no_walk, whole, opened, named, resolved,
  created, created_small, resolved_small, written, updated,
}

put_delivers_example :
    AlwaysEnds
      (connection
        (put_send (disk 9) (level 4) upload 8 laptop)
        (handle_stream (disk 9) no_walk whole (level 2) server_disk)
        []
        [])
      (connection
        (finish (ok (done 2 8), laptop))
        (finish (ok tt, arrived (1 ∷ 2 ∷ []) (new_meta 420 (some 7) (some 5))))
        []
        [])
put_delivers_example =
    put_delivers (disk 9) (disk 9) no_walk whole (level 4) (level 2) upload 8 laptop server_disk 0
      a_meta (codes "a") (1 ∷ 2 ∷ []) true 1 (arrived [] (new_meta 420 none none))
      (arrived (1 ∷ 2 ∷ []) (new_meta 420 none none))
      (arrived (1 ∷ 2 ∷ []) (new_meta 420 (some 7) (some 5))) opened refl named refl refl resolved
      created written updated

abbrev download : CopyJobSpec
download = record upload {
  source = record { user_at_host = some (codes "host"); filename = codes "in/a" };
  destination = record { user_at_host = none; filename = codes "out" };
}

made :
    create_or_truncate
      (disk 9)
      (codes "out")
      (header_from (header_for_file (level 4) a_meta (codes "a")))
      server_disk
    ≡ ok (1, arrived [] (new_meta 420 none none))
unfolding create_or_truncate header_for_file header_from supports push apply_qcp_meta to_tagged_data
    new_mode tag into_unsigned masked
made = refl

get_delivers_example :
    AlwaysEnds
      (connection
        (handle_stream (disk 9) no_walk whole (level 4) laptop)
        (get_send (disk 9) (level 4) download 8 server_disk)
        []
        [])
      (connection
        (finish (ok tt, laptop))
        (finish (ok (done 2 8), arrived (1 ∷ 2 ∷ []) (new_meta 420 (some 7) (some 5))))
        []
        [])
unfolding supports
get_delivers_example =
    get_delivers (disk 9) (disk 9) no_walk whole (level 4) (level 4) download 8 server_disk laptop 0
      a_meta (codes "a") (1 ∷ 2 ∷ []) 1 (arrived [] (new_meta 420 none none))
      (arrived (1 ∷ 2 ∷ []) (new_meta 420 none none))
      (arrived (1 ∷ 2 ∷ []) (new_meta 420 (some 7) (some 5))) opened refl named refl refl made
      written updated

lost : Get.Refuses (disk 9) (codes "in/a") server_disk (io missing)
unfolding open_with_meta
lost = inl (missing, refl, refl)

get_refused_example :
    AlwaysEnds
      (connection
        (handle_stream (disk 9) no_walk whole (level 4) server_disk)
        (get_send (disk 9) (level 4) download 8 laptop)
        []
        [])
      (connection
        (finish (ok tt, server_disk))
        (finish (err (response (respond (error_to_status (io missing)))), laptop))
        []
        [])
    × (status_of (respond (error_to_status (io missing))) ≢ 0)
get_refused_example =
    get_refused (disk 9) (disk 9) no_walk whole (level 4) (level 4) download 8 laptop server_disk
      (io missing) lost

abbrev astray : CopyJobSpec
astray = record upload {
  destination = record { user_at_host = some (codes "host"); filename = codes "no/x" };
}

nowhere :
    Put.Refuses
      (disk 9)
      (codes "no/x")
      (header_for_file (level 1) a_meta (codes "a"))
      server_disk
      (status directory_does_not_exist)
      (header_ (header_for_file (level 1) a_meta (codes "a")) ∷ [])
unfolding append_filename pop ends_with
nowhere = inl (directory_does_not_exist, refl, refl, refl)

put_refused_example :
    AlwaysEnds
      (connection
        (put_send (disk 9) (level 1) astray 8 laptop)
        (handle_stream (disk 9) no_walk whole (level 2) server_disk)
        []
        [])
      (connection
        (finish
          (err (response (respond (error_to_status (status directory_does_not_exist)))), laptop))
        (finish (ok tt, server_disk))
        (header_ (header_for_file (level 1) a_meta (codes "a")) ∷ [])
        [])
    × (status_of (respond (error_to_status (status directory_does_not_exist))) ≢ 0)
put_refused_example =
    put_refused (disk 9) (disk 9) no_walk whole (level 1) (level 2) astray 8 laptop server_disk 0
      a_meta (codes "a") (status directory_does_not_exist)
      (header_ (header_for_file (level 1) a_meta (codes "a")) ∷ []) opened refl named nowhere

too_small : write_all (disk 1) 1 (1 ∷ 2 ∷ []) (arrived [] (new_meta 420 none none)) ≡ err full
unfolding write_all
too_small = refl

put_write_fails_example :
    (v' : Disk) × (unread : List Packet) × AlwaysEnds
      (connection
        (put_send (disk 9) (level 4) upload 8 laptop)
        (handle_stream (disk 1) no_walk whole (level 2) server_disk)
        []
        [])
      (connection
        (finish (err (message (codes "PUTx failed on completion check")), laptop))
        (finish (ok tt, v'))
        unread
        [])
put_write_fails_example =
    put_write_fails (disk 9) (disk 1) no_walk whole (level 4) (level 2) upload 8 laptop server_disk
      0 a_meta (codes "a") (1 ∷ 2 ∷ []) true 1 (arrived [] (new_meta 420 none none)) full opened
      refl named refl refl resolved_small created_small too_small
