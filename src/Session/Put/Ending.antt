-- ===== src/Session/Put/Ending.antt =====
-- PUT ends, whatever the two file systems do, with a server whose splittings of listings end.
use qcp.Prelude.{
  ℕ, ◌∙◌, ◌≡◌, ◌≢◌, refl, sym, Bool, none, some, List, [], ◌∷◌, err, length, ◌==◌, ==_iff, Result,
  Result-cases, Option-cases, Bool-cases, inl, inr,
}
use qcp.Prelude.Text.{Str}
use qcp.Client.Job.{CopyJobSpec}
use qcp.Protocol.Compat.{Compatibility}
use qcp.Session.Effects.{Outcome, then_, copy_in, or_return, respond, send_ok}
use qcp.Session.Exchange.{Endpoint, connection, finish}
use qcp.Session.Exchange.Ending.{Ends, Reaches-Ends, first_finished, second_finished, Silent-Ends}
use qcp.Session.Exchange.Live.{Live, Live-then_, Lively-Live, copy_in-Lively, or_return-Lively}
use qcp.Session.Exchange.Progress.{
  Reaches-trans, stays, goes, first_sends, second_sends, first_receives, second_receives, as_bytes,
  write_all, send_bytes-Reaches,
}
use qcp.Session.Files.{
  FileSystem, FsMetadata, is_dir, open_with_meta, create_or_truncate, update_metadata,
}
use qcp.Session.List.{SplittingsEnd}
use qcp.Session.Listing.{ListData, ListEntry, SplitError}
use qcp.Session.Messages.{
  Packet, command_, response_, header_, trailer_, header_from, FileHeaderV2, trailer_from,
  into_result, status_of, status_to_u64, ok_, IoError, ErrorKind, connection_reset, io, status,
}
use qcp.Session.Put.{
  closed, check_sent, put_send, put_file, put_body, put_finish, put_payload, put_trailer,
  append_filename,
}
use qcp.Session.Put.Delivery.{target, put_send-Reaches, handle_stream-Reaches, put_payload-Reaches}
use qcp.Session.Put.DiskFull.{put_finish_fails}
use qcp.Session.Put.Live.{put_finish-Lively, put_body-Lively, put_trailer-Lively}
use qcp.Session.Put.Refusal.{handle_stream_refused}
use qcp.Session.Requests.{handle_stream}
use qcp.Session.Requests.Servers.{handle_stream-Lively}
use qcp.Session.Transfer.{header_for_file, trailer_for_file, put_command}
use qcp.Session.Transfer.Versions.{header_for_file_lem}
use qcp.Util.FilePath.{file_name}

closed-finish :
    {W : Type 0} (kind : ErrorKind) (e : IoError) (w : W)
    → kind ≢ connection_reset
    → closed kind e w ≡ finish (err (io e), w)
unfolding closed
closed-finish connection_reset e w h = absurd (h refl)
closed-finish _ e w h = refl

module _ {W V : Type 0} (local : FileSystem W) (fs : FileSystem V) (compat : Compatibility)
    (job : CopyJobSpec) (peak : ℕ) (w : W) (meta : FsMetadata) where
  -- The server's end while the payload is under way.
  abbrev receiving : ℕ → ℕ → V → Endpoint Packet (Outcome V (Unit {0}))
  receiving g size v1 =
      then_ (copy_in fs g size v1) (λ result. or_return result (λ _. put_trailer fs g))

  receiving-Live : (g size : ℕ) (v1 : V) → Live (receiving g size v1)
  receiving-Live g size v1 =
      Live-then_ (copy_in fs g size v1) _ (Lively-Live (copy_in-Lively fs g size) v1) (λ result.
        Lively-Live
          (or_return-Lively result (λ _. put_trailer fs g) (λ _. put_trailer-Lively fs g)))

  put_finish-Ends :
      (bs : List ℕ) (g size : ℕ) (v1 : V)
      → length bs ≡ size
      → Ends (
          connection
            (put_finish local compat job peak meta w)
            (receiving g size v1)
            (as_bytes bs)
            [])
  unfolding put_finish put_trailer send_ok
  put_finish-Ends bs g size v1 whole = elim (Result-cases (write_all fs g bs v1)) [
    | inl (v2, written) ↦
        let t = trailer_for_file compat meta job.preserve in
        let waits = Lively-Live (put_finish-Lively local compat job peak meta) w in
        let header : FileHeaderV2 = record { size = size; filename = []; metadata = [] } in
        Reaches-Ends
          (Reaches-trans
            (put_payload-Reaches fs bs header g v1 v2 (put_finish local compat job peak meta w)
              whole written)
            (goes (first_sends (trailer_ t) _ _ [] [])
              (goes (second_receives (trailer_ t) _ _ [] []) (stays _))))
          (elim (Result-cases (update_metadata fs g (trailer_from t).metadata v2)) [
            | inl (v3, updated) ↦ rw updated (Silent-Ends _ _ [] [] waits tt)
            | inr (e, failed) ↦ rw failed (Silent-Ends _ _ [] [] waits tt)
          ])
    | inr (e, failed) ↦
        let (v', unread, run) =
          put_finish_fails local fs compat job peak w meta bs g size v1 e whole failed in
        (_, tt, run)
  ]

  put_body-Ends :
      (file g size : ℕ) (v1 : V)
      → ((e : IoError) → (local.copy file w).failure ≡ some e → e.kind ≢ connection_reset)
      → meta.len ≡ size
      → Ends (
          connection
            (put_body local compat job peak file meta w)
            (receiving g size v1)
            []
            (response_ (respond (ok_, none)) ∷ []))
  unfolding put_body check_sent into_result respond status_of status_to_u64
  put_body-Ends file g size v1 steady whole =
      let c = local.copy file w in
      let q = receiving g size v1 in
      Reaches-Ends
        (goes (first_receives (response_ (respond (ok_, none))) _ q [] [])
          (send_bytes-Reaches c.sent _ w q [] []))
        (elim (Option-cases c.failure) [
          | inl no_failure ↦ rw no_failure (elim (Bool-cases (length c.sent == meta.len)) [
            | inl same ↦ rw same (
                put_finish-Ends c.sent g size v1 ((==_iff (length c.sent) meta.len).0 same ∙ whole))
            | inr short ↦ rw short (first_finished _ q _ [] (receiving-Live g size v1))
          ])
          | inr (e, failed) ↦
              rw (failed, closed-finish e.kind e w (steady e failed))
                (first_finished _ q _ [] (receiving-Live g size v1))
        ])

module _ {W V : Type 0} (local : FileSystem W) (fs : FileSystem V)
    (walk : Str → Bool → V → Result Str (List ListEntry))
    (split : ListData → Result SplitError (List ListData)) (compat server : Compatibility)
    (job : CopyJobSpec) (peak : ℕ) (w : W) (v : V) where
  -- The client has opened a file and sent its header.
  put_handle-Ends :
      (file : ℕ) (meta : FsMetadata) (name : Str)
      → ((e : IoError) → (local.copy file w).failure ≡ some e → e.kind ≢ connection_reset)
      → Ends (
          connection
            (put_body local compat job peak file meta w)
            (handle_stream fs walk split server v)
            (command_ (put_command compat job) ∷ header_ (header_for_file compat meta name) ∷ [])
            [])
  unfolding put_payload send_ok
  put_handle-Ends file meta name steady =
      let h = header_for_file compat meta name in
      let path = job.destination.filename in
      elim (Result-cases (append_filename fs path v)) [
        | inl (append, resolved) ↦
            elim (Result-cases (
              create_or_truncate fs (target append path (header_from h).filename) (header_from h)
                v)) [
                  | inl (r, created) ↦
                      Reaches-Ends
                        (Reaches-trans
                          (handle_stream-Reaches fs walk split compat server job v append h r.0 r.1
                            _ resolved created)
                          (goes (second_sends (response_ (respond (ok_, none))) _ _ [] [])
                            (stays _)))
                        (put_body-Ends local fs compat job peak w meta file r.0 (header_from h).size
                          r.1 steady (sym (header_for_file_lem compat meta name).0))
                  | inr (e, failed) ↦
                      Reaches-Ends
                        (handle_stream_refused fs walk split compat server job v h (io e) [] _
                          (inr (append, e, resolved, failed, refl, refl)))
                        (second_finished _ _ _ _
                          (Lively-Live (put_body-Lively local compat job peak file meta) w))
                ]
        | inr (st, failed) ↦
            Reaches-Ends
              (handle_stream_refused fs walk split compat server job v h (status st)
                (header_ h ∷ []) _ (inl (st, failed, refl, refl)))
              (second_finished _ _ _ _
                (Lively-Live (put_body-Lively local compat job peak file meta) w))
      ]

  pub put_send-Ends :
      ((file : ℕ) (e : IoError) → (local.copy file w).failure ≡ some e → e.kind ≢ connection_reset)
      → SplittingsEnd walk split
      → Ends (
          connection
            (put_send local compat job peak w)
            (handle_stream fs walk split server v)
            []
            [])
  unfolding put_send put_file
  put_send-Ends steady splits =
      let live = Lively-Live (handle_stream-Lively fs walk split splits server) v in
      let q = handle_stream fs walk split server v in
      elim (Result-cases (open_with_meta local job.source.filename w)) [
        | inl (r, opened) ↦ elim (Bool-cases (is_dir r.1)) [
          | inl dir ↦ rw (opened, dir) (first_finished _ q [] [] live)
          | inr regular ↦ elim (Option-cases (file_name job.source.filename)) [
            | inl nameless ↦
                rw (opened, regular, nameless)
                  (Reaches-Ends (goes (first_sends _ _ q [] []) (stays _))
                    (first_finished _ q _ [] live))
            | inr (name, named) ↦
                Reaches-Ends
                  (put_send-Reaches local compat job peak w r.0 r.1 name q opened regular named)
                  (put_handle-Ends r.0 r.1 name (steady r.0))
          ]
        ]
        | inr (e, failed) ↦ rw failed (first_finished _ q [] [] live)
      ]
