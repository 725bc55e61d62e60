-- ===== src/Session/Get/Delivery.antt =====
-- A file that both ends can handle is delivered by GET, whatever the levels of the two ends. The
-- server is the first end here.
use qcp.Prelude.{
  ℕ, ◌∙◌, ◌≡◌, sym, Bool, false, ◌&&◌, none, some, List, [], ◌∷◌, ◌++◌, ok, length, Result, ==_iff,
  Bool-cases, inl, inr,
}
use qcp.Prelude.Text.{Str}
use qcp.Client.Job.{CopyJobSpec}
use qcp.Protocol.Compat.{Compatibility, supports, get2_put2}
use qcp.Session.Effects.{Outcome, respond, send_ok}
use qcp.Session.Exchange.{Endpoint, connection, finish}
use qcp.Session.Exchange.Progress.{
  Reaches, Reaches-trans, stays, goes, first_sends, second_sends, first_receives, second_receives,
  as_bytes, write_all, send_bytes-Reaches, copy_in-Reaches, AlwaysEnds, Reaches-AlwaysEnds,
}
use qcp.Session.Files.{
  FileSystem, FsMetadata, is_dir, open_with_meta, create_or_truncate, update_metadata,
}
use qcp.Session.Get.{preserves, get_send, get_body, get_payload, get_trailer, get_handle, get_file}
use qcp.Session.Listing.{ListData, ListEntry, SplitError}
use qcp.Session.Messages.{
  Packet, args_from, command_, response_, header_, trailer_, FileArgs2, FileHeader, FileTrailer,
  header_from, trailer_from, into_result, status_of, status_to_u64, ok_,
}
use qcp.Session.Put.{done}
use qcp.Session.Requests.{handle_stream, command_handler}
use qcp.Session.Transfer.{header_for_file, trailer_for_file, get_command, preserve_options}
use qcp.Session.Transfer.Versions.{header_for_file_lem, preserves-preserve_options}
use qcp.Util.FilePath.{file_name}

-- The arguments that the server finds in the command.
abbrev pub get_args : Compatibility → CopyJobSpec → FileArgs2
get_args compat job = record {
  filename = job.source.filename;
  options = preserve_options (supports compat get2_put2 && job.preserve);
}

module _ {V R : Type 0} (fs : FileSystem V) (walk : Str → Bool → V → Result Str (List ListEntry))
    (split : ListData → Result SplitError (List ListData)) (compat server : Compatibility)
    (job : CopyJobSpec) (v : V) where
  -- The command reaches its handler.
  pub handle_stream-Reaches :
      (q : Endpoint Packet R)
      → Reaches
          (connection
            (handle_stream fs walk split server v)
            q
            []
            (command_ (get_command compat job) ∷ []))
          (connection (get_handle fs server (get_args compat job) v) q [] [])
  unfolding handle_stream command_handler get_command args_from
  handle_stream-Reaches q =
      goes (first_receives (command_ (get_command compat job)) _ q [] [])
        (elim (Bool-cases (supports compat get2_put2)) [
          | inl two ↦ rw two (stays _)
          | inr one ↦ rw one (stays _)
        ])

module _ {V R : Type 0} (fs : FileSystem V) (server : Compatibility) (args : FileArgs2) (v : V)
    (file : ℕ) (meta : FsMetadata) where
  get_handle-Reaches :
      (name : Str) (bs : List ℕ) (q : Endpoint Packet R)
      → open_with_meta fs args.filename v ≡ ok (file, meta)
      → is_dir meta ≡ false
      → file_name args.filename ≡ some name
      → fs.copy file v ≡ record { sent = bs; failure = none }
      → length bs ≡ meta.len
      → Reaches (connection (get_handle fs server args v) q [] []) (
          connection
            (finish (ok tt, v))
            q
            (response_ (respond (ok_, none))
                ∷ header_ (header_for_file server meta name)
                ∷ as_bytes bs
              ++ trailer_ (trailer_for_file server meta (preserves args.options)) ∷ [])
            [])
  unfolding get_handle get_file send_ok
  get_handle-Reaches name bs q opened regular named copied whole =
      rw (opened, regular, named, copied)
        (goes (first_sends (response_ (respond (ok_, none))) _ q [] []) (
          goes (first_sends (header_ (header_for_file server meta name)) _ q _ []) (
            Reaches-trans (send_bytes-Reaches bs _ v q _ []) (
              rw ((==_iff (length bs) meta.len).1 whole) (
                goes
                  (first_sends (trailer_ (trailer_for_file server meta (preserves args.options))) _
                    q _ [])
                  (stays _))))))

module _ {W R : Type 0} (fs : FileSystem W) (job : CopyJobSpec) (peak : ℕ) (w : W) where
  get_body-Reaches :
      (h : FileHeader) (t : FileTrailer) (bs : List ℕ) (g : ℕ) (w1 w2 w3 : W)
      (p : Endpoint Packet R)
      → create_or_truncate fs job.destination.filename (header_from h) w ≡ ok (g, w1)
      → length bs ≡ (header_from h).size
      → write_all fs g bs w1 ≡ ok w2
      → update_metadata fs g (trailer_from t).metadata w2 ≡ ok w3
      → Reaches
          (connection p
            (get_body fs job peak w)
            (response_ (respond (ok_, none)) ∷ header_ h ∷ as_bytes bs ++ trailer_ t ∷ [])
            [])
          (connection p (finish (ok (done (length bs) peak), w3)) [] [])
  unfolding get_body get_payload respond into_result status_of status_to_u64 get_trailer
  get_body-Reaches h t bs g w1 w2 w3 p created whole written updated =
      goes (second_receives (response_ (respond (ok_, none))) p _ _ []) (
        goes (second_receives (header_ h) p _ _ []) (
          rw (created, ← whole)
            (Reaches-trans (copy_in-Reaches fs g bs _ w1 w2 p (trailer_ t ∷ []) [] written)
              (goes (second_receives (trailer_ t) p _ [] []) (rw updated (stays _))))))

module _ {W V : Type 0} (local : FileSystem W) (fs : FileSystem V)
    (walk : Str → Bool → V → Result Str (List ListEntry))
    (split : ListData → Result SplitError (List ListData)) (compat server : Compatibility)
    (job : CopyJobSpec) (peak : ℕ) (w : W) (v : V) where
  -- Where the server can open and read a regular file as a whole, and the client can create the
  -- destination, write the bytes and apply the metadata of the trailer: whatever the levels of the two
  -- ends and the order in which they go on, the exchange ends, in the same number of steps, with
  -- success at both ends and with exactly those bytes written. The trailer has metadata if the job
  -- is to preserve it and the level of the client has a command that says so. The file system of the
  -- server is as it was.
  pub get_delivers :
      (file : ℕ) (meta : FsMetadata) (name : Str) (bs : List ℕ) (g : ℕ) (w1 w2 w3 : W)
      → open_with_meta fs job.source.filename v ≡ ok (file, meta)
      → is_dir meta ≡ false
      → file_name job.source.filename ≡ some name
      → fs.copy file v ≡ record { sent = bs; failure = none }
      → length bs ≡ meta.len
      → create_or_truncate local job.destination.filename
          (header_from (header_for_file server meta name))
          w
        ≡ ok (g, w1)
      → write_all local g bs w1 ≡ ok w2
      → update_metadata local g
          (trailer_from
            (trailer_for_file server meta (supports compat get2_put2 && job.preserve))).metadata
          w2
        ≡ ok w3
      → AlwaysEnds
          (connection
            (handle_stream fs walk split server v)
            (get_send local compat job peak w)
            []
            [])
          (connection (finish (ok tt, v)) (finish (ok (done meta.len peak), w3)) [] [])
  unfolding get_send
  get_delivers file meta name bs g w1 w2 w3 opened regular named copied whole created written
        updated =
      let h = header_for_file server meta name in
      let (size, same_name) = header_for_file_lem server meta name in
      let asks = supports compat get2_put2 && job.preserve in
      let arrives =
        get_body-Reaches {R = Outcome V (Unit {0})} local job peak w h
          (trailer_for_file server meta asks) bs g w1 w2 w3 (finish (ok (tt {0}), v)) created
          (whole ∙ sym size) written updated in
      Reaches-AlwaysEnds _ _ tt (
        goes (second_sends (command_ (get_command compat job)) _ _ [] []) (
          Reaches-trans (handle_stream-Reaches fs walk split compat server job v _) (
            Reaches-trans
              (get_handle-Reaches fs server (get_args compat job) v file meta name bs _ opened
                regular named copied whole)
              (rw (preserves-preserve_options asks) (rw whole at arrives)))))
