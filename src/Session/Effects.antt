-- ===== src/Session/Effects.antt =====
-- The `async` code of an end of a stream: its own world is passed on, errors end it as `?` does, and
-- it waits where it receives. The helpers are those of qcp/src/session/common.rs. An end that finds
-- bytes where a message is due, or a message where bytes are due, fails.
use qcp.Prelude.{
  ℕ, zero, suc, Bool, true, false, Option, none, some, List, [], ◌∷◌, Result, ok, err,
}
use qcp.Prelude.Text.{Str, codes}
use qcp.Session.Exchange.{Endpoint, finish, send, receive, diverge}
use qcp.Session.Files.{FileSystem}
use qcp.Client.Transfers.{CommandStats}
use qcp.Session.Listing.{ListData}
use qcp.Session.Messages.{
  Status, ok_, file_not_found, incorrect_permissions, it_is_a_directory, disk_full, io_error,
  unknown_error, status_to_u64, IoError, ErrorKind, not_found, permission_denied, is_a_directory,
  storage_full, unexpected_eof, Failure, status, io, message, panic, Response, response_v1,
  FileHeader, FileTrailer, Command, Packet, command_, response_, header_, trailer_, list_data_,
  byte_,
}

abbrev pub Outcome : Type 0 → Type 0 → Type 0
Outcome W A = Result Failure A × W

abbrev pub M : Type 0 → Type 0 → Type 0
M W A = W → Endpoint Packet (Outcome W A)

abbrev pub then_ :
    {W A B : Type 0} → Endpoint Packet (Outcome W A) → (A → M W B) → Endpoint Packet (Outcome W B)
then_ (finish (ok a, w)) f = f a w
then_ (finish (err e, w)) f = finish (err e, w)
then_ (send i p) f = send i (then_ p f)
then_ (receive k) f = receive (λ o. then_ (k o) f)
then_ diverge f = diverge

infixl 5 ◌>>=◌ ◌>>◌
abbrev pub ◌>>=◌ : {W A B : Type 0} → M W A → (A → M W B) → M W B
◌>>=◌ m f w = then_ (m w) f

abbrev pub ◌>>◌ : {W B : Type 0} → M W (Unit {0}) → M W B → M W B
m >> k = m >>= λ _. k

abbrev pub end_of_stream : Failure
end_of_stream = io (record { kind = unexpected_eof; text = codes "early eof" })

abbrev pub confused : Failure
confused = message (codes "unexpected data")

-- `from_reader_async_framed`, at each of the types that are read.
abbrev pub as_response : Option Packet → Result Failure Response
as_response (some (response_ r)) = ok r
as_response (some _) = err confused
as_response none = err end_of_stream

abbrev pub as_header : Option Packet → Result Failure FileHeader
as_header (some (header_ h)) = ok h
as_header (some _) = err confused
as_header none = err end_of_stream

abbrev pub as_trailer : Option Packet → Result Failure FileTrailer
as_trailer (some (trailer_ t)) = ok t
as_trailer (some _) = err confused
as_trailer none = err end_of_stream

abbrev pub as_list_data : Option Packet → Result Failure ListData
as_list_data (some (list_data_ d)) = ok d
as_list_data (some _) = err confused
as_list_data none = err end_of_stream

abbrev pub as_command : Option Packet → Result Failure Command
as_command (some (command_ c)) = ok c
as_command (some _) = err confused
as_command none = err end_of_stream

module _ {W : Type 0} where
  abbrev pub pure : {A : Type 0} → A → M W A
  pure a w = finish (ok a, w)

  abbrev pub bail : {A : Type 0} → Failure → M W A
  bail e w = finish (err e, w)

  -- A computation that does not end.
  abbrev pub spin : {A : Type 0} → M W A
  spin w = diverge

  -- A system call, with its error as a value; and with `?`.
  abbrev pub ask : {A : Type 0} → (W → A) → M W A
  ask call w = finish (ok (call w), w)

  abbrev pub asked : {A : Type 0} → Result IoError A → M W A
  asked (ok a) = pure a
  asked (err e) = bail (io e)

  abbrev pub put_world : W → M W (Unit {0})
  put_world w' w = finish (ok tt, w')

  abbrev pub ensure : Bool → Str → M W (Unit {0})
  ensure true text = pure tt
  ensure false text = bail (message text)

  abbrev pub unwrap : {A : Type 0} → Option A → M W A
  unwrap none = bail panic
  unwrap (some a) = pure a

  -- `to_writer_async_framed`
  abbrev pub write_packet : Packet → M W (Unit {0})
  write_packet p w = send p (finish (ok tt, w))

  abbrev pub read_packet : {A : Type 0} → (Option Packet → Result Failure A) → M W A
  read_packet as_message w = receive (λ o. finish (as_message o, w))

  -- The bytes of a file into the stream.
  abbrev pub send_bytes : List ℕ → M W (Unit {0})
  send_bytes [] w = finish (ok tt, w)
  send_bytes (b ∷ bs) w = send (byte_ b) (send_bytes bs w)

-- `into_result` with `?`.
abbrev pub accepted : {W : Type 0} → Result Failure Response → M W (Unit {0})
accepted (ok r) = pure tt
accepted (err e) = bail e

-- `io_error_to_status`
unfoldable pub kind_to_status : ErrorKind → Str → Status × Option Str
kind_to_status not_found text = (file_not_found, none)
kind_to_status permission_denied text = (incorrect_permissions, none)
kind_to_status is_a_directory text = (it_is_a_directory, none)
kind_to_status storage_full text = (disk_full, none)
kind_to_status _ text = (io_error, some text)

-- The text of an error that is neither a status nor of input and output.
abbrev text_of : Failure → Str
text_of (message text) = text
text_of _ = []

unfoldable pub error_to_status : Failure → Status × Option Str
unfolding kind_to_status
error_to_status (status st) = (st, none)
error_to_status (io e) = kind_to_status e.kind e.text
error_to_status f = (unknown_error, some (text_of f))

unfoldable pub respond : Status × Option Str → Response
unfolding status_to_u64
respond (st, m) = response_v1 (record { status = status_to_u64 st; message = m })

module _ {W : Type 0} where
  unfoldable pub send_response : Status → Option Str → M W (Unit {0})
  unfolding respond
  send_response st m = write_packet (response_ (respond (st, m)))

  unfoldable pub send_ok : M W (Unit {0})
  unfolding respond
  send_ok = write_packet (response_ (respond (ok_, none)))

  unfoldable pub send_error : Failure → M W (Unit {0})
  unfolding respond error_to_status
  send_error e = write_packet (response_ (respond (error_to_status e)))

  -- `error_and_return!` at the error of a system call.
  abbrev pub or_return : {A : Type 0} → Result IoError A → (A → M W (Unit {0})) → M W (Unit {0})
  or_return (ok a) k = k a
  or_return (err e) k = send_error (io e)

-- `copy_large` into a file, from at most so many bytes of the stream. It stops early at the end of
-- the stream. Buffers only group the bytes; the count that it returns is not used.
module _ {W : Type 0} (fs : FileSystem W) (file : ℕ) where
  abbrev pub arrived :
      M W (Result IoError (Unit {0})) → Option Packet → M W (Result IoError (Unit {0}))
  arrived rest (some (byte_ b)) w = elim (fs.write file b w) [
    | ok w' ↦ rest w'
    | err e ↦ finish (ok (err e), w)
  ]
  arrived rest (some _) w = finish (err confused, w)
  arrived rest none w = finish (ok (ok tt), w)

  unfoldable pub copy_in : ℕ → M W (Result IoError (Unit {0}))
  copy_in zero w = finish (ok (ok tt), w)
  copy_in (suc n) w = receive (λ o. arrived (copy_in n) o w)

-- `RequestResult` of qcp/src/session/mod.rs
pub record RequestResult : Type 0 where
  pub stats : CommandStats
  pub list : Option ListData

abbrev pub no_result : RequestResult
no_result = record { stats = record { payload_bytes = 0; peak_transfer_rate = 0 }; list = none }
