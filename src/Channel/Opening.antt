-- ===== src/Channel/Opening.antt =====
-- qcp/src/control/channel.rs and the greetings of qcp/src/protocol/control/greetings.rs: the banner
-- that the client waits for, and the greetings by which the two ends choose a level. What has
-- arrived of the banner is a parameter, and a banner that is no text counts as unrecognised.
pub mod Agreed
use qcp.Prelude.{
  ℕ, Bool, Option, none, some, List, [], ◌∷◌, ltb, if◌then◌else◌, get_or, length, take, drop,
  Result, ok, err,
}
use qcp.Prelude.Text.{Str, codes, str_eq}
use qcp.Protocol.Compat.{
  Compatibility, level, to_u16, our_compatibility_numeric, process_compatibility_levels,
}

abbrev pub banner : Str
banner = codes "qcp-server-2\n"

abbrev pub old_banner : Str
old_banner = codes "qcp-server-1\n"

-- How the bytes end that have arrived: the timeout, or an error of the stream.
pub data End : Type 0 where
  timeout closed : End

pub data BannerError : Type 0 where
  failed_to_connect timed_out error_reading unsupported_old unrecognised : BannerError

abbrev pub cut_short : End → BannerError
cut_short timeout = timed_out
cut_short closed = error_reading

-- The bytes behind the banner. The timeout runs from the first byte on.
unfoldable pub wait_for_banner : End → Str → Result BannerError Str
wait_for_banner end [] = err failed_to_connect
wait_for_banner end (b ∷ bytes) =
    let buf = take (length banner) (b ∷ bytes) in
    if ltb (length (b ∷ bytes)) (length banner)
    then err (cut_short end)
    else if str_eq buf banner
    then ok (drop (length banner) (b ∷ bytes))
    else if str_eq buf old_banner
    then err unsupported_old
    else err unrecognised

pub record ClientGreeting : Type 0 where
  pub compatibility : ℕ
  pub debug : Bool
  pub extension : ℕ

pub record ServerGreeting : Type 0 where
  pub compatibility : ℕ
  pub extension : ℕ

abbrev pub our_compatibility_level : Compatibility
our_compatibility_level = level our_compatibility_numeric

-- Each end sends its greeting before it reads that of the other.
unfoldable pub client_greeting : Bool → Option Compatibility → ClientGreeting
unfolding to_u16
client_greeting remote_debug force_compat = record {
  compatibility = to_u16 (get_or force_compat our_compatibility_level);
  debug = remote_debug;
  extension = 0;
}

unfoldable pub server_greeting : Option Compatibility → ServerGreeting
unfolding to_u16
server_greeting force_compat = record {
  compatibility = to_u16 (get_or force_compat our_compatibility_level);
  extension = 0;
}

-- The levels that the client and the server select from the greeting that they receive.
unfoldable pub client_selects : ServerGreeting → Compatibility
unfolding process_compatibility_levels
client_selects reply = process_compatibility_levels reply.compatibility

unfoldable pub server_selects : ClientGreeting → Compatibility
unfolding process_compatibility_levels
server_selects reply = process_compatibility_levels reply.compatibility
