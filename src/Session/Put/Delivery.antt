-- ===== src/Session/Put/Delivery.antt =====
-- A file that both ends can handle is delivered by PUT, whatever the levels of the two ends.
use mathlib.Core.Path.{subst}
use qcp.Prelude.{
  ℕ, ◌∙◌, ◌≡◌, sym, Bool, false, none, some, List, [], ◌∷◌, append-nil, ok, length, Result,
  if◌then◌else◌, ==_iff, Bool-cases, inl, inr,
}
use qcp.Prelude.Text.{Str}
use qcp.Client.Job.{CopyJobSpec}
use qcp.Protocol.Compat.{Compatibility, supports, get2_put2}
use qcp.Session.Effects.{then_, copy_in, or_return, send_ok, respond}
use qcp.Session.Exchange.{Endpoint, connection, finish}
use qcp.Session.Exchange.Progress.{
  Reaches, Reaches-trans, stays, goes, first_sends, second_sends, first_receives, second_receives,
  as_bytes, write_all, send_bytes-Reaches, copy_in-Reaches, AlwaysEnds, Reaches-AlwaysEnds,
}
use qcp.Session.Files.{
  FileSystem, FsMetadata, is_dir, open_with_meta, create_or_truncate, update_metadata,
}
use qcp.Session.Listing.{ListData, ListEntry, SplitError}
use qcp.Session.Messages.{
  Packet, args_from, command_, header_, trailer_, response_, ok_, header_from, trailer_from,
  FileHeaderV2, FileHeader, into_result, status_of, status_to_u64,
}
use qcp.Session.Put.{
  done, put_send, put_file, put_body, put_finish, put_handle, put_checked, put_to, put_payload,
  put_trailer, append_filename, check_sent,
}
use qcp.Session.Requests.{handle_stream, command_handler}
use qcp.Session.Transfer.{header_for_file, trailer_for_file, put_command}
use qcp.Session.Transfer.Versions.{header_for_file_lem}
use qcp.Util.FilePath.{file_name, push}

module _ {W S : Type 0} (fs : FileSystem W) (compat : Compatibility) (job : CopyJobSpec) (peak : ℕ)
    (w : W) (file : ℕ) (meta : FsMetadata) where
  pub put_send-Reaches :
      (name : Str) (q : Endpoint Packet S)
      → open_with_meta fs job.source.filename w ≡ ok (file, meta)
      → is_dir meta ≡ false
      → file_name job.source.filename ≡ some name
      → Reaches (connection (put_send fs compat job peak w) q [] []) (
          connection
            (put_body fs compat job peak file meta w)
            q
            (command_ (put_command compat job) ∷ header_ (header_for_file compat meta name) ∷ [])
            [])
  unfolding put_send put_file
  put_send-Reaches name q opened regular named =
      rw (opened, regular, named)
        (goes (first_sends _ _ q [] []) (goes (first_sends _ _ q _ []) (stays _)))

  pub put_body-Reaches :
      (bs : List ℕ) (q : Endpoint Packet S)
      → fs.copy file w ≡ record { sent = bs; failure = none }
      → length bs ≡ meta.len
      → Reaches
          (connection
            (put_body fs compat job peak file meta w)
            q
            []
            (response_ (respond (ok_, none)) ∷ []))
          (connection (put_finish fs compat job peak meta w) q (as_bytes bs) [])
  unfolding put_body check_sent respond into_result status_of status_to_u64
  put_body-Reaches bs q copied whole =
      goes (first_receives (response_ (respond (ok_, none))) _ q [] [])
        (rw (copied, (==_iff (length bs) meta.len).1 whole) (send_bytes-Reaches bs _ w q [] []))

-- The path that the file arrives at.
abbrev pub target : Bool → Str → Str → Str
target append destination name = if append then push destination name else destination

module _ {V R : Type 0} (fs : FileSystem V) (walk : Str → Bool → V → Result Str (List ListEntry))
    (split : ListData → Result SplitError (List ListData)) (compat server : Compatibility)
    (job : CopyJobSpec) (v : V) where
  pub handle_stream-Reaches :
      (append : Bool) (h : FileHeader) (g : ℕ) (v1 : V) (p : Endpoint Packet R)
      → append_filename fs job.destination.filename v ≡ ok append
      → create_or_truncate fs
          (target append job.destination.filename (header_from h).filename)
          (header_from h)
          v
        ≡ ok (g, v1)
      → Reaches
          (connection p
            (handle_stream fs walk split server v)
            (command_ (put_command compat job) ∷ header_ h ∷ [])
            [])
          (connection p (put_payload fs (header_from h) g v1) [] [])
  unfolding handle_stream command_handler put_handle put_checked put_to put_command args_from
  handle_stream-Reaches append h g v1 p resolved created =
      elim (Bool-cases (supports compat get2_put2)) [
        | inl two ↦
            goes (second_receives (command_ (put_command compat job)) p _ (header_ h ∷ []) []) (
              rw (two, resolved)
                (goes (second_receives (header_ h) p _ [] []) (rw created (stays _))))
        | inr one ↦
            goes (second_receives (command_ (put_command compat job)) p _ (header_ h ∷ []) []) (
              rw (one, resolved)
                (goes (second_receives (header_ h) p _ [] []) (rw created (stays _))))
      ]

module _ {V R : Type 0} (fs : FileSystem V) where
  pub put_payload-Reaches :
      (bs : List ℕ) (header : FileHeaderV2) (g : ℕ) (v1 v2 : V) (p : Endpoint Packet R)
      → length bs ≡ header.size
      → write_all fs g bs v1 ≡ ok v2
      → Reaches
          (connection p
            (then_
              (copy_in fs g header.size v1)
              (λ result. or_return result (λ _. put_trailer fs g)))
            (as_bytes bs)
            [])
          (connection p (put_trailer fs g v2) [] [])
  put_payload-Reaches bs header g v1 v2 p whole written =
      rw (← whole, ← append-nil (as_bytes bs))
        (copy_in-Reaches fs g bs (λ result. or_return result (λ _. put_trailer fs g)) v1 v2 p [] []
          written)

module _ {W V : Type 0} (local : FileSystem W) (fs : FileSystem V) (compat : Compatibility)
    (job : CopyJobSpec) (peak : ℕ) (w : W) (meta : FsMetadata) where
  put_finish-Reaches :
      (g : ℕ) (v2 v3 : V)
      → update_metadata fs g (trailer_from (trailer_for_file compat meta job.preserve)).metadata v2
        ≡ ok v3
      → Reaches
          (connection (put_finish local compat job peak meta w) (put_trailer fs g v2) [] [])
          (connection (finish (ok (done meta.len peak), w)) (finish (ok tt, v3)) [] [])
  unfolding put_finish put_trailer send_ok respond status_of status_to_u64
  put_finish-Reaches g v2 v3 updated = goes (first_sends _ _ (put_trailer fs g v2) [] []) (
      goes (second_receives (trailer_ (trailer_for_file compat meta job.preserve)) _ _ [] []) (
        rw updated (
          goes (second_sends (response_ (respond (ok_, none))) _ _ [] [])
            (goes (first_receives (response_ (respond (ok_, none))) _ _ [] []) (stays _)))))

module _ {W V : Type 0} (local : FileSystem W) (fs : FileSystem V)
    (walk : Str → Bool → V → Result Str (List ListEntry))
    (split : ListData → Result SplitError (List ListData)) (compat server : Compatibility)
    (job : CopyJobSpec) (peak : ℕ) (w : W) (v : V) where
  -- Where the client can open and read a regular file as a whole, and the server can resolve the
  -- destination, create the file there, write the bytes and apply the metadata of the trailer:
  -- whatever the levels of the two ends and the order in which they go on, the exchange ends, in the
  -- same number of steps, with success at both ends and with exactly those bytes written at the
  -- target. The file system of the client is as it was.
  pub put_delivers :
      (file : ℕ) (meta : FsMetadata) (name : Str) (bs : List ℕ) (append : Bool) (g : ℕ)
      (v1 v2 v3 : V)
      → open_with_meta local job.source.filename w ≡ ok (file, meta)
      → is_dir meta ≡ false
      → file_name job.source.filename ≡ some name
      → local.copy file w ≡ record { sent = bs; failure = none }
      → length bs ≡ meta.len
      → append_filename fs job.destination.filename v ≡ ok append
      → create_or_truncate fs
          (target append job.destination.filename name)
          (header_from (header_for_file compat meta name))
          v
        ≡ ok (g, v1)
      → write_all fs g bs v1 ≡ ok v2
      → update_metadata fs g (trailer_from (trailer_for_file compat meta job.preserve)).metadata v2
        ≡ ok v3
      → AlwaysEnds
          (connection
            (put_send local compat job peak w)
            (handle_stream fs walk split server v)
            []
            [])
          (connection (finish (ok (done meta.len peak), w)) (finish (ok tt, v3)) [] [])
  unfolding put_payload send_ok respond status_to_u64
  put_delivers file meta name bs append g v1 v2 v3 opened regular named copied whole resolved
        created written updated =
      let h = header_for_file compat meta name in
      let (size, same_name) = header_for_file_lem compat meta name in
      Reaches-AlwaysEnds _ _ tt (
        Reaches-trans
          (put_send-Reaches local compat job peak w file meta name _ opened regular named)
          (Reaches-trans
            (handle_stream-Reaches fs walk split compat server job v append h g v1 _ resolved (
              subst
                (λ (n : Str).
                  create_or_truncate fs (target append job.destination.filename n) (header_from h) v
                  ≡ ok (g, v1))
                (sym same_name) created))
            (goes (second_sends (response_ (respond (ok_, none))) _ _ [] []) (
              Reaches-trans (put_body-Reaches local compat job peak w file meta bs _ copied whole) (
                Reaches-trans
                  (put_payload-Reaches fs bs (header_from h) g v1 v2 _ (whole ∙ sym size) written)
                  (put_finish-Reaches local fs compat job peak w meta g v2 v3 updated))))))
