-- ===== src/Session/Directories/Outcome.antt =====
-- What the commands on directories come to at both ends.
use qcp.Prelude.{
  ◌≡◌, ◌≢◌, arith, ne-==_false, refl, Bool, true, false, none, List, [], ◌∷◌, ok, err, Result,
  Result-cases, inl, inr, Bool-cases, is_ok,
}
use qcp.Prelude.Text.{Str, codes}
use qcp.Client.Job.{CopyJobSpec, is_remote}
use qcp.Protocol.Compat.{Compatibility, supports, mkdir_setmeta_ls}
use qcp.Session.Directories.{answered, mkdir_send, mkdir_at, mkdir_handle}
use qcp.Session.Effects.{
  respond, error_to_status, send_error, send_ok, no_result, end_of_stream, RequestResult,
}
use qcp.Session.Exchange.{Endpoint, connection, finish, step_first}
use qcp.Session.Exchange.Progress.{
  Reaches, stays, goes, first_sends, second_sends, first_receives, second_receives, AlwaysEnds,
  Reaches-AlwaysEnds,
}
use qcp.Session.Exchange.Schedule.{first}
use qcp.Session.Files.{FileSystem, FsMetadata, is_dir, is_file}
use qcp.Session.Get.Refusal.{kind_to_status-ne}
use qcp.Session.Listing.{ListData, ListEntry, SplitError}
use qcp.Session.Messages.{
  Packet, Response, response_, command_, create_directory, CreateDirectoryArgs, status_of,
  status_to_u64, into_result, ok_, IoError, io, status, response, message, Failure, it_is_a_file,
}
use qcp.Session.Requests.{handle_stream, command_handler}

it_is_a_file-ne : status_of (respond (error_to_status (status it_is_a_file))) ≢ 0
unfolding status_of respond error_to_status status_to_u64
it_is_a_file-ne h = omega arith

-- What a client makes of the end of an exchange without a payload.
module _ {W S : Type 0} (w : W) (up : List Packet) where
  answered_ok :
      (q : Endpoint Packet S)
      → Reaches
          (connection (answered w) q up (response_ (respond (ok_, none)) ∷ []))
          (connection (finish (ok no_result, w)) q up [])
  unfolding answered into_result respond status_of status_to_u64
  answered_ok q = goes (first_receives (response_ (respond (ok_, none))) _ q up []) (stays _)

  answered_refused :
      (r : Response) (q : Endpoint Packet S)
      → status_of r ≢ 0
      → Reaches
          (connection (answered w) q up (response_ r ∷ []))
          (connection (finish (err (response r), w)) q up [])
  unfolding answered into_result
  answered_refused r q failing =
      goes (first_receives (response_ r) _ q up [])
        (rw (ne-==_false (status_of r) 0 failing) (stays _))

  answered_closed :
      (s : S)
      → Reaches
          (connection (answered w) (finish s) up [])
          (connection (finish (err end_of_stream, w)) (finish s) up [])
  unfolding answered step_first
  answered_closed s = goes (first refl) (stays _)

module _ {W V : Type 0} (fs : FileSystem V) (path : Str) (w : W) (v : V) where
  -- How an attempt at a directory may end: with the directory there, or with all as it was.
  pub record Made (r : Result Failure RequestResult) (v' : V) : Type 0 where
    pub there : is_ok r ≡ true → (m : FsMetadata) × (fs.metadata path v' ≡ ok m) × (is_dir m ≡ true)
    pub unchanged : is_ok r ≡ false → v' ≡ v

  abbrev Ends : Result IoError FsMetadata → Type 0
  Ends found =
      (r : Result Failure RequestResult) × (s : Result Failure (Unit {0})) × (v' : V) × Reaches
        (connection (answered w) (mkdir_at fs path found v) [] [])
        (connection (finish (r, w)) (finish (s, v')) [] [])
      × Made r v'

  mkdir_at-Ends :
      ((x x' : V)
        → fs.create_dir path x ≡ ok x'
        → (m : FsMetadata) × (fs.metadata path x' ≡ ok m) × (is_dir m ≡ true))
      → (found : Result IoError FsMetadata) → fs.metadata path v ≡ found
      → Ends found
  unfolding mkdir_at send_ok send_error
  mkdir_at-Ends law (ok meta) known = elim (Bool-cases (is_file meta)) [
    | inl file ↦
        let refusal = respond (error_to_status (status it_is_a_file)) in
        (
          err (response refusal),
          ok tt,
          v,
          rw file (
              goes (second_sends (response_ refusal) _ _ [] [])
                (answered_refused w [] refusal _ it_is_a_file-ne)),
          record { there = λ e. cc; unchanged = λ e. refl },
        )
    | inr other ↦ elim (Bool-cases (is_dir meta)) [
      | inl dir ↦ (
        ok no_result,
        ok tt,
        v,
        rw (other, dir)
            (goes (second_sends (response_ (respond (ok_, none))) _ _ [] []) (answered_ok w [] _)),
        record { there = λ e. (meta, known, dir); unchanged = λ e. cc },
      )
      | inr special ↦ (
        err end_of_stream,
        err (message (codes "mkdir: existing entity is neither file nor directory")),
        v,
        rw (other, special) (answered_closed w [] _),
        record { there = λ e. cc; unchanged = λ e. refl },
      )
    ]
  ]
  mkdir_at-Ends law (err e) known = elim (Result-cases (fs.create_dir path v)) [
    | inl (v', created) ↦ (
      ok no_result,
      ok tt,
      v',
      rw created
          (goes (second_sends (response_ (respond (ok_, none))) _ _ [] []) (answered_ok w [] _)),
      record { there = λ e'. law v v' created; unchanged = λ e'. cc },
    )
    | inr (x, failed) ↦
        let refusal = respond (error_to_status (io x)) in
        let refusal-ne : status_of refusal ≢ 0 =
          unfold error_to_status in kind_to_status-ne x.kind x.text in
        (
          err (response refusal),
          ok tt,
          v,
          rw failed (
              goes (second_sends (response_ refusal) _ _ [] [])
                (answered_refused w [] refusal _ refusal-ne)),
          record { there = λ e'. cc; unchanged = λ e'. refl },
        )
  ]

module _ {W V : Type 0} (fs : FileSystem V) (walk : Str → Bool → V → Result Str (List ListEntry))
    (split : ListData → Result SplitError (List ListData)) (compat server : Compatibility)
    (job : CopyJobSpec) (w : W) (v : V) where
  -- Where the agreed level of the client has the command, the destination is remote, and a directory
  -- that the system of the server creates is there afterwards: however the two ends go on, the
  -- exchange ends, the client's file system is as it was, and the client reports success only if the
  -- directory is there; if it reports an error, the file system of the server is as it was.
  pub mkdir-Made :
      supports compat mkdir_setmeta_ls ≡ true
      → is_remote job.destination ≡ true
      → ((x x' : V)
          → fs.create_dir job.destination.filename x ≡ ok x'
          → (m : FsMetadata) × (fs.metadata job.destination.filename x' ≡ ok m) × (is_dir m ≡ true))
      → (r : Result Failure RequestResult) × (s : Result Failure (Unit {0})) × (v' : V) × AlwaysEnds
          (connection (mkdir_send compat job w) (handle_stream fs walk split server v) [] [])
          (connection (finish (r, w)) (finish (s, v')) [] [])
        × Made fs job.destination.filename w v r v'
  unfolding mkdir_send handle_stream command_handler mkdir_handle
  mkdir-Made level remote law =
      let path = job.destination.filename in
      let args : CreateDirectoryArgs = record { dir_name = path; options = [] } in
      let (r, s, v', run, made) = mkdir_at-Ends fs path w v law (fs.metadata path v) refl in
      (
        r,
        s,
        v',
        Reaches-AlwaysEnds _ _ tt (
            rw (level, remote)
              (goes (first_sends (command_ (create_directory args)) _ _ [] [])
                (goes (second_receives (command_ (create_directory args)) _ _ [] []) run))),
        made,
      )
