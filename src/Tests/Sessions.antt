-- ===== src/Tests/Sessions.antt =====
-- The other commands of a session, between two small file systems.
use qcp.Prelude.{
  ℕ, ◌≡◌, refl, Bool, true, false, Option, none, some, List, [], ◌∷◌, Result, ok, arith, ◌+◌, ◌*◌,
  sym, ◌∙◌, if◌then◌else◌, length,
}
use qcp.Prelude.Text.{Str, codes}
use qcp.Client.Job.{CopyJobSpec}
use qcp.Protocol.Compat.{level, supports, mkdir_setmeta_ls}
use qcp.Session.Effects.{Outcome, RequestResult}
use qcp.Client.Transfers.{pre}
use qcp.Session.Exchange.{Connection, connection, finish}
use qcp.Session.Exchange.Schedule.{IsOver}
use qcp.Session.Requests.Ending.{run_request-AlwaysEnds}
use qcp.Session.Exchange.Progress.{AlwaysEnds}
use qcp.Session.Files.{directory}
use qcp.Session.Listing.{ListData, ListEntry, split_by_size}
use qcp.Session.List.{list_send, SplittingsEnd}
use qcp.Session.List.Delivery.{listed, list_delivers}
use qcp.Session.Directories.{mkdir_send}
use qcp.Session.Directories.Outcome.{Made, mkdir-Made}
use qcp.Session.Messages.{Packet, Failure, IoError}
use qcp.Session.Requests.{handle_stream, run_request}
use qcp.Tests.Disk.{Disk, disk, fresh, make-stat}
use qcp.Tests.Laptop.{upload, laptop, server_disk, no_walk, whole}

abbrev new_dir : CopyJobSpec
new_dir = record upload {
  destination = record { user_at_host = some (codes "host"); filename = codes "new" };
  directory = true;
}

level_4 : supports (level 4) mkdir_setmeta_ls ≡ true
unfolding supports
level_4 = refl

mkdir-Made_example :
    (r : Result Failure RequestResult) × (s : Result Failure (Unit {0})) × (v' : Disk) × AlwaysEnds
      (connection
        (mkdir_send (level 4) new_dir laptop)
        (handle_stream (disk 9) no_walk whole (level 4) server_disk)
        []
        [])
      (connection (finish (r, laptop)) (finish (s, v')) [] [])
    × Made (disk 9) (codes "new") laptop server_disk r v'
mkdir-Made_example =
    mkdir-Made (disk 9) no_walk whole (level 4) (level 4) new_dir laptop server_disk level_4 refl
      (λ x x' h. make-stat (codes "new") x x' h)

abbrev root : ListEntry
root = record { name = codes "out"; directory = true; size = 0; attributes = [] }

abbrev child : ListEntry
child = record { name = codes "out/a"; directory = false; size = 2; attributes = [] }

-- A walk that goes below the root if it is asked to.
abbrev walk : Str → Bool → Disk → Result Str (List ListEntry)
walk path recursive d = ok (root ∷ (if recursive then child ∷ [] else []))

abbrev entry_size : ListEntry → Option ℕ
entry_size e = some 4

abbrev data_size : ListData → Option ℕ
data_size d = some (1 + 8 * length d.entries)

abbrev out_listing : CopyJobSpec
out_listing = record upload {
  source = record { user_at_host = some (codes "host"); filename = codes "out" };
}

abbrev two_packets : List ListData
two_packets =
    record { entries = root ∷ []; more_to_come = true }
    ∷ record { entries = child ∷ []; more_to_come = false }
    ∷ []

in_two :
    split_by_size entry_size data_size 12
      (record { entries = root ∷ child ∷ []; more_to_come = false })
    ≡ ok two_packets
unfolding split_by_size
in_two = refl

list_delivers_example :
    AlwaysEnds
      (connection
        (list_send 3 (level 4) out_listing true laptop)
        (handle_stream (disk 9) walk (split_by_size entry_size data_size 12) (level 4) server_disk)
        []
        [])
      (connection
        (finish (ok (listed (root ∷ child ∷ [])), laptop))
        (finish (ok tt, server_disk))
        []
        [])
list_delivers_example =
    list_delivers (disk 9) walk entry_size data_size 12 3 (level 4) (level 4) out_listing true
      laptop server_disk (fresh directory (codes "out") 493).meta root (child ∷ []) two_packets
      level_4 refl refl refl in_two (omega arith)

none-ne-some : (e : IoError) → ◌≡◌ {A = Option IoError} none (some e) → ⊥
none-ne-some e h = cc

in_one :
    split_by_size entry_size data_size 12 (record { entries = root ∷ []; more_to_come = false })
    ≡ ok (record { entries = root ∷ []; more_to_come = false } ∷ [])
unfolding split_by_size
in_one = refl

both_end : SplittingsEnd walk (split_by_size entry_size data_size 12)
both_end path true d entries h k =
    let same : root ∷ child ∷ [] ≡ entries = cc in
    let j = rw (← same) at k in let l = sym in_two ∙ j in cc
both_end path false d entries h k =
    let same : root ∷ [] ≡ entries = cc in let j = rw (← same) at k in let l = sym in_one ∙ j in cc

run_request-AlwaysEnds_example :
    (t : Connection Packet (Outcome Disk RequestResult) (Outcome Disk (Unit {0}))) × IsOver t
    × AlwaysEnds
        (connection
          (run_request (disk 9) 3 (level 4) true 8 out_listing pre laptop)
          (handle_stream
            (disk 1)
            walk
            (split_by_size entry_size data_size 12)
            (level 2)
            server_disk)
          []
          [])
        t
run_request-AlwaysEnds_example =
    run_request-AlwaysEnds (disk 9) (disk 1) walk (split_by_size entry_size data_size 12) 3
      (level 4) (level 2) true 8 laptop server_disk both_end (λ file e h. absurd (none-ne-some e h))
      out_listing pre
