-- ===== src/Client/Job.antt =====
-- qcp/src/client/job.rs: file specifications and copy jobs. `Path::file_name`, for the display, is
-- left out. What the platform takes for a local path is a parameter; that of Windows is below.
pub mod Text
use qcp.Prelude.{
  ℕ, zero, suc, ◌+◌, ◌≡◌, Bool, true, false, not, ◌&&◌, ◌||◌, Option, none, some, List, [], ◌∷◌,
  ◌++◌, ltb, leb, ◌==◌, if◌then◌else◌, get_or, length, Result, ok, err, ◌>>=◌,
}
use qcp.Prelude.Text.{Str, split_once}
use qcp.Protocol.Control.{Direction, server_to_client, client_to_server}

pub record FileSpec : Type 0 where
  pub user_at_host : Option Str
  pub filename : Str

after : Str → Option (Str × Str) → Str
after s none = s
after s (some (a, b)) = b

-- Strips the optional user@ part off a hostname
unfoldable pub hostname_of : Str → Str
unfolding after split_once
hostname_of user_at_host = after user_at_host (split_once b'@' user_at_host)

before : Option (Str × Str) → Option Str
before none = none
before (some (a, b)) = some a

unfoldable pub username_of : Str → Option Str
unfolding before split_once
username_of user_at_host = before (split_once b'@' user_at_host)

-- `split_once` at the two characters `]:`.
abbrev pub keep_front : ℕ → Option (Str × Str) → Option (Str × Str)
keep_front c none = none
keep_front c (some (a, b)) = some (c ∷ a, b)

unfoldable pub split_bracket : Str → Option (Str × Str)
split_bracket [] = none
split_bracket (c ∷ []) = none
split_bracket (c ∷ d ∷ s) =
    let later = split_bracket (d ∷ s) in
    if c == b']' && d == b':' then some ([], s) else keep_front c later

abbrev pub local_file : Str → FileSpec
local_file s = record { user_at_host = none; filename = s }

abbrev pub tail : Str → Str
tail [] = []
tail (c ∷ s) = s

-- A text that starts with a bracket: `hostish` still has it.
unfoldable pub from_bracketed : Str → Option (Str × Str) → FileSpec
from_bracketed s none = local_file s
from_bracketed s (some (hostish, filename)) = record {
  user_at_host = some (tail hostish);
  filename = filename;
}

unfoldable pub from_colon : Str → Option (Str × Str) → FileSpec
from_colon s none = local_file s
from_colon s (some (host, filename)) = record { user_at_host = some host; filename = filename }

abbrev pub starts_with : ℕ → Str → Bool
starts_with c [] = false
starts_with c (d ∷ s) = d == c

unfoldable pub from_str : (Str → Bool) → Str → FileSpec
unfolding from_bracketed from_colon
from_str override_path_is_local s =
    if starts_with b'[' s
    then from_bracketed s (split_bracket s)
    else if override_path_is_local s
    then local_file s
    else from_colon s (split_once b':' s)

abbrev prefixed : Option Str → Str → Str
prefixed none filename = filename
prefixed (some host) filename = host ++ b':' ∷ filename

unfoldable pub display : FileSpec → Str
display f = prefixed f.user_at_host f.filename

-- The platforms' answers to `override_path_is_local`: the default, and that of Windows.
abbrev pub unix_path_is_local : Str → Bool
unix_path_is_local path = false

abbrev pub count : ℕ → Str → ℕ
count c [] = 0
count c (d ∷ s) = if d == c then suc (count c s) else count c s

abbrev pub is_ascii_alphabetic : ℕ → Bool
is_ascii_alphabetic c = leb b'a' c && leb c b'z' || leb b'A' c && leb c b'Z'

drive_path : Str → Bool
drive_path (a ∷ b ∷ c ∷ s) = is_ascii_alphabetic a && b == b':' && (c == b'/' || c == b'\\')
drive_path _ = false

unfoldable pub windows_path_is_local : Str → Bool
unfolding drive_path
windows_path_is_local path = count b':' path == 1 && drive_path path

pub record CopyJobSpec : Type 0 where
  pub source : FileSpec
  pub destination : FileSpec
  pub user_at_host : Str
  pub preserve : Bool
  pub directory : Bool
  pub mode : Option ℕ

pub data JobError : Type 0 where
  one_must_be_remote : JobError

abbrev pub is_remote : FileSpec → Bool
is_remote f = elim f.user_at_host [ none ↦ false | some h ↦ true ]

abbrev pub xor : Bool → Bool → Bool
xor true b = not b
xor false b = b

unfoldable pub try_new : FileSpec → FileSpec → Bool → Bool → Result JobError CopyJobSpec
try_new source destination preserve directory =
    if not (xor (not (is_remote source)) (not (is_remote destination)))
    then err one_must_be_remote
    else ok record {
      source = source;
      destination = destination;
      user_at_host = get_or source.user_at_host (get_or destination.user_at_host []);
      preserve = preserve;
      directory = directory;
      mode = none;
    }

unfoldable pub from_parts : (Str → Bool) → Str → Str → Bool → Bool → Result JobError CopyJobSpec
unfolding from_str try_new
from_parts is_local source destination preserve directory =
    try_new (from_str is_local source) (from_str is_local destination) preserve directory

unfoldable pub remote_host : CopyJobSpec → Str
unfolding hostname_of
remote_host j = hostname_of j.user_at_host

unfoldable pub direction : CopyJobSpec → Direction
direction j = if is_remote j.source then server_to_client else client_to_server
