-- ===== src/Session/Get/Refusal.antt =====
-- What GET does with a file that the server refuses.
use qcp.Prelude.{
  ℕ, ◌≡◌, ◌≢◌, ◌⊎◌, arith, ne-==_false, Bool, true, List, [], ◌∷◌, ok, err, Result, inl, inr,
}
use qcp.Prelude.Text.{Str}
use qcp.Client.Job.{CopyJobSpec}
use qcp.Protocol.Compat.{Compatibility}
use qcp.Session.Effects.{respond, error_to_status, send_error, kind_to_status}
use qcp.Session.Exchange.{Endpoint, connection, finish}
use qcp.Session.Exchange.Progress.{
  Reaches, Reaches-trans, stays, goes, first_sends, second_sends, second_receives, AlwaysEnds,
  Reaches-AlwaysEnds,
}
use qcp.Session.Files.{FileSystem, FsMetadata, is_dir, open_with_meta}
use qcp.Session.Get.{get_send, get_body, get_handle}
use qcp.Session.Listing.{ListData, ListEntry, SplitError}
use qcp.Session.Messages.{
  Packet, command_, response_, FileArgs2, into_result, status_of, status_to_u64, IoError, ErrorKind,
  not_found, permission_denied, is_a_directory, storage_full, io, status, response, Failure,
  it_is_a_directory,
}
use qcp.Session.Requests.{handle_stream}
use qcp.Session.Transfer.{get_command}
use qcp.Session.Get.Delivery.{get_args, handle_stream-Reaches}

-- Why a file cannot be had from the server.
abbrev pub Refuses : {V : Type 0} → FileSystem V → Str → V → Failure → Type 0
Refuses fs path v f =
    ((e : IoError) × (open_with_meta fs path v ≡ err e) × (f ≡ io e))
    ⊎ ((r : ℕ × FsMetadata) × (open_with_meta fs path v ≡ ok r)
        × (is_dir r.1 ≡ true)
        × (f ≡ status it_is_a_directory))

pub kind_to_status-ne :
    (kind : ErrorKind) (text : Str) → status_of (respond (kind_to_status kind text)) ≢ 0
unfolding status_of respond kind_to_status status_to_u64
kind_to_status-ne not_found text h = omega arith
kind_to_status-ne permission_denied text h = omega arith
kind_to_status-ne is_a_directory text h = omega arith
kind_to_status-ne storage_full text h = omega arith
kind_to_status-ne _ text h = omega arith

pub is_a_directory-ne : status_of (respond (error_to_status (status it_is_a_directory))) ≢ 0
unfolding status_of respond error_to_status status_to_u64
is_a_directory-ne h = omega arith

Refuses-status :
    {V : Type 0} (fs : FileSystem V) (path : Str) (v : V) (f : Failure)
    → Refuses fs path v f
    → status_of (respond (error_to_status f)) ≢ 0
unfolding error_to_status
Refuses-status fs path v f (inl (e, failed, same)) = rw same (kind_to_status-ne e.kind e.text)
Refuses-status fs path v f (inr (r, opened, dir, same)) = rw same is_a_directory-ne

module _ {V R : Type 0} (fs : FileSystem V) (server : Compatibility) (args : FileArgs2) (v : V)
    (f : Failure) where
  get_handle_refused :
      (q : Endpoint Packet R)
      → Refuses fs args.filename v f
      → Reaches
          (connection (get_handle fs server args v) q [] [])
          (connection (finish (ok tt, v)) q (response_ (respond (error_to_status f)) ∷ []) [])
  unfolding get_handle send_error
  get_handle_refused q (inl (e, failed, same)) =
      rw (failed, same)
        (goes (first_sends (response_ (respond (error_to_status (io e)))) _ q [] []) (stays _))
  get_handle_refused q (inr (r, opened, dir, same)) =
      rw (opened, dir, same)
        (goes
          (first_sends (response_ (respond (error_to_status (status it_is_a_directory)))) _ q [] [])
          (stays _))

module _ {W R : Type 0} (fs : FileSystem W) (job : CopyJobSpec) (peak : ℕ) (w : W) where
  get_body_refused :
      (f : Failure) (p : Endpoint Packet R)
      → status_of (respond (error_to_status f)) ≢ 0
      → Reaches
          (connection p (get_body fs job peak w) (response_ (respond (error_to_status f)) ∷ []) [])
          (connection p (finish (err (response (respond (error_to_status f))), w)) [] [])
  unfolding get_body into_result
  get_body_refused f p failing =
      goes (second_receives (response_ (respond (error_to_status f))) p _ [] [])
        (rw (ne-==_false (status_of (respond (error_to_status f))) 0 failing) (stays _))

module _ {W V : Type 0} (local : FileSystem W) (fs : FileSystem V)
    (walk : Str → Bool → V → Result Str (List ListEntry))
    (split : ListData → Result SplitError (List ListData)) (compat server : Compatibility)
    (job : CopyJobSpec) (peak : ℕ) (w : W) (v : V) where
  -- A file that the server cannot open, or that is a directory, is refused: however the two ends go
  -- on, the server ends well, the client ends with the server's response as its error, whose status
  -- says what the matter is and is not that of success, and neither file system changes.
  pub get_refused :
      (f : Failure)
      → Refuses fs job.source.filename v f
      → AlwaysEnds
          (connection
            (handle_stream fs walk split server v)
            (get_send local compat job peak w)
            []
            [])
          (connection
            (finish (ok tt, v))
            (finish (err (response (respond (error_to_status f))), w))
            []
            [])
        × (status_of (respond (error_to_status f)) ≢ 0)
  unfolding get_send
  get_refused f refuses =
      let failing = Refuses-status fs job.source.filename v f refuses in
      (
        Reaches-AlwaysEnds _ _ tt (
            goes (second_sends (command_ (get_command compat job)) _ _ [] []) (
              Reaches-trans (handle_stream-Reaches fs walk split compat server job v _) (
                Reaches-trans (get_handle_refused fs server (get_args compat job) v f _ refuses)
                  (get_body_refused local job peak w f _ failing)))),
        failing,
      )
