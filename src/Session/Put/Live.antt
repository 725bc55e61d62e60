-- ===== src/Session/Put/Live.antt =====
-- Neither end of the PUT command diverges.
use qcp.Prelude.{ℕ, Bool, Option, none, some, Result, ok, err, Result-cases, inl, inr}
use qcp.Prelude.Text.{Str}
use qcp.Client.Job.{CopyJobSpec}
use qcp.Protocol.Compat.{Compatibility}
use qcp.Session.Effects.{as_response}
use qcp.Session.Exchange.Live.{Lively, lively, lively_rules}
use qcp.Session.Files.{FileSystem, FsMetadata, Copied}
use qcp.Session.Messages.{Status, FileHeaderV2, FileArgs2, IoError, ErrorKind, connection_reset}
use qcp.Session.Put.{
  closed, check_sent, put_check, put_finish, put_body, put_file, put_send, put_trailer, put_payload,
  put_to, put_checked, put_handle,
}

closed-Lively : {W : Type 0} (kind : ErrorKind) (e : IoError) → Lively (closed {W = W} kind e)
unfolding closed
closed-Lively connection_reset e = lively (λ w o. elim (Result-cases (as_response o)) [
  | inl (r, answered) ↦ rw answered tt
  | inr (f, unread) ↦ rw unread tt
])
closed-Lively _ e = search (lively_rules)

check_sent-Lively :
    {W : Type 0} (meta : FsMetadata) (c : Copied) (o : Option IoError)
    → Lively (check_sent {W = W} meta c o)
unfolding check_sent
check_sent-Lively meta c none = search (lively_rules)
check_sent-Lively meta c (some e) = closed-Lively e.kind e

module _ {W : Type 0} (fs : FileSystem W) where
  pub put_finish-Lively :
      (compat : Compatibility) (job : CopyJobSpec) (peak : ℕ) (meta : FsMetadata)
      → Lively (put_finish fs compat job peak meta)
  unfolding put_finish put_check
  put_finish-Lively compat job peak meta = search (lively_rules) depth 30 fits 5000

  pub put_body-Lively :
      (compat : Compatibility) (job : CopyJobSpec) (peak file : ℕ) (meta : FsMetadata)
      → Lively (put_body fs compat job peak file meta)
  unfolding put_body
  put_body-Lively compat job peak file meta =
      search (lively_rules, check_sent-Lively, put_finish-Lively) depth 30 fits 5000

  put_file-Lively :
      (compat : Compatibility) (job : CopyJobSpec) (peak file : ℕ) (meta : FsMetadata)
      → Lively (put_file fs compat job peak file meta)
  unfolding put_file
  put_file-Lively compat job peak file meta =
      search (lively_rules, put_body-Lively) depth 30 fits 5000

  pub put_send-Lively :
      (compat : Compatibility) (job : CopyJobSpec) (peak : ℕ) → Lively (put_send fs compat job peak)
  unfolding put_send
  put_send-Lively compat job peak = search (lively_rules, put_file-Lively) depth 30 fits 5000

  pub put_trailer-Lively : (file : ℕ) → Lively (put_trailer fs file)
  unfolding put_trailer
  put_trailer-Lively file = search (lively_rules) depth 30 fits 5000

  put_payload-Lively : (header : FileHeaderV2) (file : ℕ) → Lively (put_payload fs header file)
  unfolding put_payload
  put_payload-Lively header file = search (lively_rules, put_trailer-Lively) depth 30 fits 5000

  put_to-Lively : (destination : Str) (append : Bool) → Lively (put_to fs destination append)
  unfolding put_to
  put_to-Lively destination append = search (lively_rules, put_payload-Lively) depth 30 fits 5000

  put_checked-Lively :
      (destination : Str) (r : Result Status Bool) → Lively (put_checked fs destination r)
  unfolding put_checked
  put_checked-Lively destination (ok append) = put_to-Lively destination append
  put_checked-Lively destination (err st) = search (lively_rules)

  pub put_handle-Lively : (args : FileArgs2) → Lively (put_handle fs args)
  unfolding put_handle
  put_handle-Lively args = search (lively_rules, put_checked-Lively) depth 30 fits 5000
