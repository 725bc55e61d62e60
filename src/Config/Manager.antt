-- ===== src/Config/Manager.antt =====
-- qcp/src/config/manager.rs over typed values: the layers of a manager, already flattened into one
-- optional configuration. `none` is figment's fused error state. Of the typed values only a port
-- range can fail to be read back from its text, when it does not run upwards or starts at 0.
pub mod Reading
use qcp.Prelude.{Option, none, some, get_or, Result, ok, err, ◌>>=◌}
use qcp.Util.PortRange.{PortRange, ParseError, display, from_str}
use qcp.Config.{Configuration, ConfigurationOptional, system_default}

abbrev pub Manager : Type 0
Manager = Option ConfigurationOptional

-- `over` wins where it has a value.
abbrev pub over {ℓ} : {A : Type ℓ} → Option A → Option A → Option A
over (some a) o = some a
over none o = o

-- figment's `merge`: what the provider holds replaces what is there.
unfoldable pub merge : ConfigurationOptional → ConfigurationOptional → ConfigurationOptional
merge m provider = record {
  rx = over provider.rx m.rx;
  tx = over provider.tx m.tx;
  rtt = over provider.rtt m.rtt;
  congestion = over provider.congestion m.congestion;
  initial_congestion_window = over provider.initial_congestion_window m.initial_congestion_window;
  port = over provider.port m.port;
  remote_port = over provider.remote_port m.remote_port;
  timeout = over provider.timeout m.timeout;
  udp_buffer = over provider.udp_buffer m.udp_buffer;
  initial_mtu = over provider.initial_mtu m.initial_mtu;
  min_mtu = over provider.min_mtu m.min_mtu;
  max_mtu = over provider.max_mtu m.max_mtu;
}

unfoldable pub merge_provider : Manager → ConfigurationOptional → Manager
unfolding merge
merge_provider none provider = none
merge_provider (some m) provider = some (merge m provider)

-- `apply_system_default`: the defaults fill what no layer holds.
unfoldable pub with_system_default : ConfigurationOptional → Configuration
with_system_default m = record {
  rx_ = get_or m.rx system_default.rx_;
  tx_ = get_or m.tx system_default.tx_;
  rtt = get_or m.rtt system_default.rtt;
  congestion = get_or m.congestion system_default.congestion;
  initial_congestion_window =
      get_or m.initial_congestion_window system_default.initial_congestion_window;
  port = get_or m.port system_default.port;
  timeout = get_or m.timeout system_default.timeout;
  udp_buffer = get_or m.udp_buffer system_default.udp_buffer;
  initial_mtu = get_or m.initial_mtu system_default.initial_mtu;
  min_mtu = get_or m.min_mtu system_default.min_mtu;
  max_mtu = get_or m.max_mtu system_default.max_mtu;
}

-- A port range is kept as text, which the extraction parses.
unfoldable pub read_port : Option PortRange → Result ParseError (Option PortRange)
unfolding display from_str
read_port none = ok none
read_port (some p) = from_str (display p) >>= λ q. ok (some q)

-- `get::<Configuration_Optional>`
unfoldable pub get_optional : ConfigurationOptional → Result ParseError ConfigurationOptional
unfolding read_port
get_optional m = read_port m.port >>= λ port. read_port m.remote_port >>= λ remote_port.
    ok record m { port = port; remote_port = remote_port }

-- `get::<Configuration>` behind `apply_system_default`: the text of a default is always read back.
unfoldable pub get : ConfigurationOptional → Result ParseError Configuration
unfolding get_optional with_system_default
get m = get_optional m >>= λ o. ok (with_system_default o)
