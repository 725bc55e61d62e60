-- ===== src/Session/Put/Refusal.antt =====
-- What PUT does where the server cannot take the file: it says so before the payload, or at the end.
use qcp.Prelude.{
  ℕ, ◌≡◌, ◌≢◌, ◌⊎◌, arith, ne-==_false, refl, Bool, true, false, some, List, [], ◌∷◌, ok, err,
  Result, if◌then◌else◌, Bool-cases, inl, inr, ◌||◌, is_ok,
}
use qcp.Prelude.Text.{Str, codes, str_eq}
use qcp.Client.Job.{CopyJobSpec}
use qcp.Protocol.Compat.{Compatibility, supports, get2_put2}
use qcp.Session.Effects.{respond, error_to_status, send_error}
use qcp.Session.Exchange.{Endpoint, connection, finish}
use qcp.Session.Exchange.Progress.{
  Reaches, Reaches-trans, stays, goes, second_sends, first_receives, second_receives, AlwaysEnds,
  Reaches-AlwaysEnds,
}
use qcp.Session.Files.{FileSystem, FsMetadata, is_dir, open_with_meta, create_or_truncate}
use qcp.Session.Get.Refusal.{kind_to_status-ne}
use qcp.Session.Listing.{ListData, ListEntry, SplitError}
use qcp.Session.Messages.{
  Packet, args_from, command_, response_, header_, header_from, into_result, status_of,
  status_to_u64, directory_does_not_exist, IoError, io, status, response, Failure, FileHeader,
  Status,
}
use qcp.Session.Put.{
  put_send, put_body, put_handle, put_checked, put_to, append_filename, path_is_dir, path_is_file,
  or_here,
}
use qcp.Session.Put.Delivery.{target, put_send-Reaches}
use qcp.Session.Requests.{handle_stream, command_handler}
use qcp.Session.Transfer.{header_for_file, put_command}
use qcp.Util.FilePath.{file_name, ends_with, pop}

-- Why the server does not take a file, and what of the client's it has not read.
abbrev pub Refuses :
    {V : Type 0} → FileSystem V → Str → FileHeader → V → Failure → List Packet → Type 0
Refuses fs destination h v f unread =
    ((st : Status) × (append_filename fs destination v ≡ err st)
      × (f ≡ status st)
      × (unread ≡ header_ h ∷ []))
    ⊎ ((append : Bool) × (e : IoError) × (append_filename fs destination v ≡ ok append)
        × (create_or_truncate fs (target append destination (header_from h).filename)
              (header_from h) v
            ≡ err e)
        × (f ≡ io e)
        × (unread ≡ []))

-- A chain of tests that refuses in two places for the same reason.
refused_once :
    (here there trailing parent : Bool) (found : Result Status Bool) (st : Status)
    → (if here
        then ok true
        else if there
        then found
        else if trailing
        then err directory_does_not_exist
        else if parent
        then ok false
        else err directory_does_not_exist)
      ≡ err st
    → is_ok found ≡ true
    → st ≡ directory_does_not_exist
refused_once here there trailing parent found st h k = ground arith

append_filename-err :
    {V : Type 0} (fs : FileSystem V) (destination : Str) (v : V) (st : Status)
    → append_filename fs destination v ≡ err st
    → status_of (respond (error_to_status (status st))) ≢ 0
unfolding append_filename status_of respond error_to_status status_to_u64
append_filename-err fs destination v st h =
    let same =
      refused_once (str_eq destination [] || str_eq destination (codes "."))
        (path_is_dir fs destination v || path_is_file fs destination v) (ends_with b'/' destination)
        (path_is_dir fs (or_here (pop destination)) v) (ok (path_is_dir fs destination v)) st h
        refl in
    rw same (λ e. omega arith)

Refuses-status :
    {V : Type 0} (fs : FileSystem V) (destination : Str) (h : FileHeader) (v : V) (f : Failure)
    (unread : List Packet)
    → Refuses fs destination h v f unread
    → status_of (respond (error_to_status f)) ≢ 0
Refuses-status fs destination h v f unread (inl (st, failed, same, rest)) =
    rw same (append_filename-err fs destination v st failed)
Refuses-status fs destination h v f unread (inr (append, e, resolved, failed, same, rest)) =
    rw same (unfold error_to_status in kind_to_status-ne e.kind e.text)

module _ {V R : Type 0} (fs : FileSystem V) (walk : Str → Bool → V → Result Str (List ListEntry))
    (split : ListData → Result SplitError (List ListData)) (compat server : Compatibility)
    (job : CopyJobSpec) (v : V) where
  pub handle_stream_refused :
      (h : FileHeader) (f : Failure) (unread : List Packet) (p : Endpoint Packet R)
      → Refuses fs job.destination.filename h v f unread
      → Reaches
          (connection p
            (handle_stream fs walk split server v)
            (command_ (put_command compat job) ∷ header_ h ∷ [])
            [])
          (connection p (finish (ok tt, v)) unread (response_ (respond (error_to_status f)) ∷ []))
  unfolding handle_stream command_handler put_handle put_checked put_to put_command args_from
      send_error
  handle_stream_refused h f unread p (inl (st, failed, same, rest)) =
      rw (same, rest)
        (goes (second_receives (command_ (put_command compat job)) p _ (header_ h ∷ []) [])
          (elim (Bool-cases (supports compat get2_put2)) [
            | inl two ↦
                rw (two, failed)
                  (goes (second_sends (response_ (respond (error_to_status (status st)))) p _ _ [])
                    (stays _))
            | inr one ↦
                rw (one, failed)
                  (goes (second_sends (response_ (respond (error_to_status (status st)))) p _ _ [])
                    (stays _))
          ]))
  handle_stream_refused h f unread p (inr (append, e, resolved, failed, same, rest)) =
      rw (same, rest)
        (goes (second_receives (command_ (put_command compat job)) p _ (header_ h ∷ []) [])
          (elim (Bool-cases (supports compat get2_put2)) [
            | inl two ↦
                rw (two, resolved)
                  (goes (second_receives (header_ h) p _ [] []) (
                    rw failed (
                      goes (second_sends (response_ (respond (error_to_status (io e)))) p _ [] [])
                        (stays _))))
            | inr one ↦
                rw (one, resolved)
                  (goes (second_receives (header_ h) p _ [] []) (
                    rw failed (
                      goes (second_sends (response_ (respond (error_to_status (io e)))) p _ [] [])
                        (stays _))))
          ]))

module _ {W V : Type 0} (local : FileSystem W) (fs : FileSystem V)
    (walk : Str → Bool → V → Result Str (List ListEntry))
    (split : ListData → Result SplitError (List ListData)) (compat server : Compatibility)
    (job : CopyJobSpec) (peak : ℕ) (w : W) (v : V) where
  -- Where the client can open a regular file but the server does not take it, for want of a directory
  -- or because the destination cannot be created: however the two ends go on, the server ends well,
  -- the client ends with the server's response as its error, whose status says what the matter is and
  -- is not that of success, no payload is sent, and neither file system changes.
  pub put_refused :
      (file : ℕ) (meta : FsMetadata) (name : Str) (f : Failure) (unread : List Packet)
      → open_with_meta local job.source.filename w ≡ ok (file, meta)
      → is_dir meta ≡ false
      → file_name job.source.filename ≡ some name
      → Refuses fs job.destination.filename (header_for_file compat meta name) v f unread
      → AlwaysEnds
          (connection
            (put_send local compat job peak w)
            (handle_stream fs walk split server v)
            []
            [])
          (connection
            (finish (err (response (respond (error_to_status f))), w))
            (finish (ok tt, v))
            unread
            [])
        × (status_of (respond (error_to_status f)) ≢ 0)
  unfolding put_body into_result
  put_refused file meta name f unread opened regular named refuses =
      let h = header_for_file compat meta name in
      let failing = Refuses-status fs job.destination.filename h v f unread refuses in
      (
        Reaches-AlwaysEnds _ _ tt (
            Reaches-trans
              (put_send-Reaches local compat job peak w file meta name _ opened regular named)
              (Reaches-trans
                (handle_stream_refused fs walk split compat server job v h f unread _ refuses)
                (goes (first_receives (response_ (respond (error_to_status f))) _ _ unread []) (
                  rw (ne-==_false (status_of (respond (error_to_status f))) 0 failing)
                    (stays _))))),
        failing,
      )
