-- ===== src/Ssh/Keywords.antt =====
-- qcp/src/config/ssh/files.rs: keywords in the intermediate canonical format, lower case without
-- hyphens and underscores, and the fields of the configuration that they name.
pub mod Spelling
use qcp.Prelude.{
  ℕ, ◌+◌, ◌≡◌, Bool, true, false, ◌&&◌, ◌||◌, Option, none, some, List, [], ◌∷◌, ltb, leb, ◌==◌,
  if◌then◌else◌, get_or,
}
use qcp.Prelude.Text.{Str, codes, str_eq}

abbrev pub to_ascii_lowercase : ℕ → ℕ
to_ascii_lowercase c = if leb b'A' c && leb c b'Z' then c + 32 else c

-- `From<&str> for CanonicalIntermediate`
unfoldable pub canonical : Str → Str
canonical [] = []
canonical (c ∷ s) =
    let rest = canonical s in
    let ch = to_ascii_lowercase c in if ch == b'_' || ch == b'-' then rest else ch ∷ rest

-- The fields of `Configuration`, in the order of the struct.
abbrev pub field_names : List Str
field_names =
    codes "rx"
    ∷ codes "tx"
    ∷ codes "rtt"
    ∷ codes "congestion"
    ∷ codes "initial_congestion_window"
    ∷ codes "port"
    ∷ codes "timeout"
    ∷ codes "udp_buffer"
    ∷ codes "packet_threshold"
    ∷ codes "time_threshold"
    ∷ codes "initial_mtu"
    ∷ codes "min_mtu"
    ∷ codes "max_mtu"
    ∷ codes "address_family"
    ∷ codes "ssh"
    ∷ codes "remote_qcp_binary"
    ∷ codes "ssh_options"
    ∷ codes "remote_port"
    ∷ codes "remote_user"
    ∷ codes "time_format"
    ∷ codes "ssh_config"
    ∷ codes "ssh_subsystem"
    ∷ codes "color"
    ∷ codes "tls_auth_type"
    ∷ codes "io_buffer_size"
    ∷ []

-- A lookup in the map from canonical names to fields: of two fields the later is kept.
unfoldable pub field_of : List Str → Str → Option Str
unfolding canonical
field_of [] keyword = none
field_of (name ∷ names) keyword = elim (field_of names keyword) [
  | some later ↦ some later
  | none ↦ if str_eq (canonical name) keyword then some name else none
]

unfoldable pub to_configuration_field : List Str → Str → Str
unfolding field_of
to_configuration_field names keyword = get_or (field_of names keyword) keyword
