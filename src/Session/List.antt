-- ===== src/Session/List.antt =====
-- qcp/src/session/ls.rs: both ends of the LIST command. The walk over a directory (the walkdir crate)
-- is a parameter; so are the lengths of encodings. The client's loop over the packets has fuel.
pub mod Delivery
use qcp.Prelude.{
  ◌≡◌, ◌≢◌, ℕ, zero, suc, Bool, true, false, Option, none, some, List, [], ◌∷◌, if◌then◌else◌,
  is_some, Result, ok, err,
}
use qcp.Prelude.Text.{Str, codes}
use qcp.Client.Job.{CopyJobSpec}
use qcp.Protocol.Compat.{Compatibility, supports, mkdir_setmeta_ls}
use qcp.Protocol.DataTag.{from, find_tag}
use qcp.Session.Attributes.{recurse, param_tag, Options}
use qcp.Session.Effects.{
  M, ◌>>=◌, ◌>>◌, bail, pure, spin, ask, ensure, write_packet, read_packet, as_response,
  as_list_data, send_ok, send_error, or_return, RequestResult, no_result, accepted,
}
use qcp.Session.Exchange.{finish}
use qcp.Session.Files.{FileSystem, FsMetadata, is_file}
use qcp.Session.Listing.{ListData, ListEntry, SplitError, encoding, endless, split_by_size, join}
use qcp.Session.Messages.{message, into_result, ListArgs, list, command_, list_data_}

abbrev pub recurse_options : Bool → Options
recurse_options true = from recurse ∷ []
recurse_options false = []

module _ {W : Type 0} where
  unfoldable pub another : ListData → Bool → M W (List ListData) → M W (List ListData)
  another packet true rest = rest >>= λ later. pure (packet ∷ later)
  another packet false rest = pure (packet ∷ [])

  -- Packets until one that says that it is the last.
  unfoldable pub read_packets : ℕ → M W (List ListData)
  unfolding another
  read_packets zero = bail (message (codes "out of fuel"))
  read_packets (suc fuel) = do
    packet ← read_packet as_list_data
    another packet packet.more_to_come (read_packets fuel)

  unfoldable pub list_send : ℕ → Compatibility → CopyJobSpec → Bool → M W RequestResult
  unfolding read_packets join
  list_send fuel compat job recursive = do
    ensure (supports compat mkdir_setmeta_ls) (codes "Operation not supported by remote")
    write_packet (
        command_
          (list (record { path = job.source.filename; options = recurse_options recursive })))
    r ← read_packet as_response
    accepted (into_result r)
    parts ← read_packets fuel
    pure (record no_result { list = some (join parts) })

  unfoldable pub write_packets : List ListData → M W (Unit {0})
  write_packets [] = pure tt
  write_packets (p ∷ packets) = write_packet (list_data_ p) >> write_packets packets

  -- The packets of a listing. The handler does not end where the splitting does not.
  unfoldable pub send_packets : Result SplitError (List ListData) → M W (Unit {0})
  unfolding write_packets
  send_packets (err encoding) = bail (message (codes "encoding failed"))
  send_packets (err endless) = spin
  send_packets (ok packets) = send_ok >> write_packets packets

  unfoldable pub send_entries :
      (ListData → Result SplitError (List ListData)) → Result Str (List ListEntry) → M W (Unit {0})
  unfolding send_packets
  send_entries split (err text) = send_error (message text)
  send_entries split (ok entries) =
      send_packets (split (record { entries = entries; more_to_come = false }))

-- Every listing that a walk gives is split in the end.
abbrev pub SplittingsEnd :
    {W : Type 0}
    → (Str → Bool → W → Result Str (List ListEntry))
    → (ListData → Result SplitError (List ListData))
    → Type 0
SplittingsEnd {W} walk split =
    (path : Str) (deep : Bool) (w : W) (entries : List ListEntry)
    → walk path deep w ≡ ok entries
    → split (record { entries = entries; more_to_come = false }) ≢ err endless

abbrev pub file_listing : Str → FsMetadata → ListData
file_listing path meta = record {
  entries = record { name = path; directory = false; size = meta.len; attributes = [] } ∷ [];
  more_to_come = false;
}

module _ {W : Type 0} (fs : FileSystem W) (walk : Str → Bool → W → Result Str (List ListEntry))
    (split : ListData → Result SplitError (List ListData)) where
  unfoldable pub list_handle : ListArgs → M W (Unit {0})
  unfolding send_entries
  list_handle args = do
    found ← ask (fs.metadata args.path)
    or_return found (λ meta.
        if is_file meta
        then (send_ok >> write_packet (list_data_ (file_listing args.path meta)))
        else (ask (walk args.path (is_some (find_tag recurse args.options))) >>= λ entries.
            send_entries split entries))
