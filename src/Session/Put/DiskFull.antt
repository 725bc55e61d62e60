-- ===== src/Session/Put/DiskFull.antt =====
-- What PUT does where a write on the server fails while the payload is under way.
use qcp.Prelude.{
  ℕ, ◌∙◌, ◌≡◌, ◌≢◌, ne-==_false, sym, Bool, false, none, some, List, [], ◌∷◌, ◌++◌, ok, err, length,
  Result, Result-cases, inl, inr,
}
use mathlib.Core.Path.{subst}
use qcp.Prelude.Text.{Str, codes}
use qcp.Client.Job.{CopyJobSpec}
use qcp.Protocol.Compat.{Compatibility}
use qcp.Session.Effects.{
  M, then_, arrived, copy_in, or_return, respond, error_to_status, send_error, send_ok,
}
use qcp.Session.Exchange.{Endpoint, connection, finish}
use qcp.Session.Exchange.Progress.{
  Reaches, Reaches-trans, stays, goes, first_sends, second_sends, first_receives, second_receives,
  as_bytes, write_all, AlwaysEnds, Reaches-AlwaysEnds,
}
use qcp.Session.Files.{FileSystem, FsMetadata, is_dir, open_with_meta, create_or_truncate}
use qcp.Session.Get.Refusal.{kind_to_status-ne}
use qcp.Session.Listing.{ListData, ListEntry, SplitError}
use qcp.Session.Messages.{
  Packet, byte_, response_, trailer_, header_from, status_of, ok_, IoError, io, message,
}
use qcp.Session.Put.{put_send, put_finish, put_check, put_payload, put_trailer, append_filename}
use qcp.Session.Put.Delivery.{target, put_send-Reaches, put_body-Reaches, handle_stream-Reaches}
use qcp.Session.Requests.{handle_stream}
use qcp.Session.Transfer.{header_for_file, trailer_for_file}
use qcp.Session.Transfer.Versions.{header_for_file_lem}
use qcp.Util.FilePath.{file_name}

module _ {R W B : Type 0} (fs : FileSystem W) (file : ℕ) (e : IoError) where
  -- The first write that fails ends the copying, with the rest of the bytes unread.
  copy_in_fails :
      (bs : List ℕ) (f : Result IoError (Unit {0}) → M W B) (w : W) (p : Endpoint Packet R)
      (up down : List Packet)
      → write_all fs file bs w ≡ err e
      → (w' : W) × (unread : List Packet) × Reaches
          (connection p (then_ (copy_in fs file (length bs) w) f) (as_bytes bs ++ up) down)
          (connection p (f (err e) w') unread down)
  unfolding copy_in write_all
  copy_in_fails [] f w p up down h = cc
  copy_in_fails (b ∷ bs) f w p up down h = elim (Result-cases (fs.write file b w)) [
    | inl (v, written) ↦
        let (w', unread, rest) = copy_in_fails bs f v p up down (rw (written, write_all) at h) in
        (
          w',
          unread,
          goes
              (second_receives (byte_ b) p
                (λ o. then_ (arrived fs file (copy_in fs file (length bs)) o w) f)
                (as_bytes bs ++ up) down)
              (rw (written, arrived) rest),
        )
    | inr (x, failed) ↦
        let k = rw (failed, write_all) at h in
        let same : x ≡ e = cc in
        (
          w,
          as_bytes bs ++ up,
          goes
              (second_receives (byte_ b) p
                (λ o. then_ (arrived fs file (copy_in fs file (length bs)) o w) f)
                (as_bytes bs ++ up) down)
              (rw (failed, arrived, same) (stays _)),
        )
  ]

module _ {W V : Type 0} (local : FileSystem W) (fs : FileSystem V) (compat : Compatibility)
    (job : CopyJobSpec) (peak : ℕ) (w : W) (meta : FsMetadata) where
  pub put_finish_fails :
      (bs : List ℕ) (g size : ℕ) (v1 : V) (e : IoError)
      → length bs ≡ size
      → write_all fs g bs v1 ≡ err e
      → (v' : V) × (unread : List Packet) × Reaches
          (connection
            (put_finish local compat job peak meta w)
            (then_ (copy_in fs g size v1) (λ result. or_return result (λ _. put_trailer fs g)))
            (as_bytes bs)
            [])
          (connection
            (finish (err (message (codes "PUTx failed on completion check")), w))
            (finish (ok tt, v'))
            unread
            [])
  unfolding put_finish send_error
  put_finish_fails bs g size v1 e whole failed =
      let trailer = trailer_ (trailer_for_file compat meta job.preserve) in
      let report = respond (error_to_status (io e)) in
      let status_ne : status_of report ≢ 0 =
        unfold error_to_status in kind_to_status-ne e.kind e.text in
      let (v', unread, run) =
        copy_in_fails fs g e bs (λ result. or_return result (λ _. put_trailer fs g)) v1
          (put_check local peak meta w) (trailer ∷ []) [] failed in
      (
        v',
        unread,
        rw (← whole) (
            goes (first_sends trailer _ _ (as_bytes bs) []) (
              Reaches-trans run (
                goes (second_sends (response_ report) _ _ unread []) (
                  goes (first_receives (response_ report) _ _ unread [])
                    (rw (ne-==_false (status_of report) 0 status_ne) (stays _)))))),
      )

module _ {W V : Type 0} (local : FileSystem W) (fs : FileSystem V)
    (walk : Str → Bool → V → Result Str (List ListEntry))
    (split : ListData → Result SplitError (List ListData)) (compat server : Compatibility)
    (job : CopyJobSpec) (peak : ℕ) (w : W) (v : V) where
  -- Where the client can open a regular file with a name, and its copy into the stream gets as many
  -- bytes through as the metadata says, without a failure, and the server can resolve the destination
  -- and create the file, but one of the writes of those bytes fails: however the two ends go on, the
  -- exchange ends, the client with an error and its file system as it was.
  pub put_write_fails :
      (file : ℕ) (meta : FsMetadata) (name : Str) (bs : List ℕ) (append : Bool) (g : ℕ) (v1 : V)
      (e : IoError)
      → open_with_meta local job.source.filename w ≡ ok (file, meta)
      → is_dir meta ≡ false
      → file_name job.source.filename ≡ some name
      → local.copy file w ≡ record { sent = bs; failure = none }
      → length bs ≡ meta.len
      → append_filename fs job.destination.filename v ≡ ok append
      → create_or_truncate fs
          (target append job.destination.filename name)
          (header_from (header_for_file compat meta name))
          v
        ≡ ok (g, v1)
      → write_all fs g bs v1 ≡ err e
      → (v' : V) × (unread : List Packet) × AlwaysEnds
          (connection
            (put_send local compat job peak w)
            (handle_stream fs walk split server v)
            []
            [])
          (connection
            (finish (err (message (codes "PUTx failed on completion check")), w))
            (finish (ok tt, v'))
            unread
            [])
  unfolding put_payload send_ok
  put_write_fails file meta name bs append g v1 e opened regular named copied whole resolved created
        failed =
      let h = header_for_file compat meta name in
      let (size, same_name) = header_for_file_lem compat meta name in
      let (v', unread, run) =
        put_finish_fails local fs compat job peak w meta bs g (header_from h).size v1 e
          (whole ∙ sym size) failed in
      (
        v',
        unread,
        Reaches-AlwaysEnds _ _ tt (
            Reaches-trans
              (put_send-Reaches local compat job peak w file meta name _ opened regular named)
              (Reaches-trans
                (handle_stream-Reaches fs walk split compat server job v append h g v1 _ resolved (
                  subst
                    (λ (n : Str).
                      create_or_truncate fs (target append job.destination.filename n)
                        (header_from h) v
                      ≡ ok (g, v1))
                    (sym same_name) created))
                (goes (second_sends (response_ (respond (ok_, none))) _ _ [] []) (
                  Reaches-trans
                    (put_body-Reaches local compat job peak w file meta bs _ copied whole) run)))),
      )
