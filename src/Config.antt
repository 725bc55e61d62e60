-- ===== src/Config.antt =====
-- qcp/src/config/structure.rs: the configuration and its optional form, as far as the modelled code
-- reads them, with the derived quantities and the validation. The other fields (file names, ssh
-- options, console settings) have no entry here.
pub mod Bounds
pub mod Manager
use qcp.Prelude.{
  ℕ, ◌*◌, ◌/◌, ◌^◌, Bool, true, false, Option, none, some, ltb, leb, ◌==◌, ◌||◌, if◌then◌else◌,
  Result, ok, err, ensure, ◌>>◌, ◌>>=◌,
}
use qcp.Util.PortRange.{PortRange}
use qcp.Protocol.Control.{CongestionController, cubic}

pub record Configuration : Type 0 where
  pub rx_ : ℕ
  pub tx_ : ℕ
  pub rtt : ℕ
  pub congestion : CongestionController
  pub initial_congestion_window : ℕ
  pub port : PortRange
  pub timeout : ℕ
  pub udp_buffer : ℕ
  pub initial_mtu : ℕ
  pub min_mtu : ℕ
  pub max_mtu : ℕ

-- `Configuration_Optional`
pub record ConfigurationOptional : Type 0 where
  pub rx : Option ℕ
  pub tx : Option ℕ
  pub rtt : Option ℕ
  pub congestion : Option CongestionController
  pub initial_congestion_window : Option ℕ
  pub port : Option PortRange
  pub remote_port : Option PortRange
  pub timeout : Option ℕ
  pub udp_buffer : Option ℕ
  pub initial_mtu : Option ℕ
  pub min_mtu : Option ℕ
  pub max_mtu : Option ℕ

abbrev pub minimum_bandwidth : ℕ
minimum_bandwidth = 150

abbrev pub minimum_udp_buffer : ℕ
minimum_udp_buffer = 1024

-- `SYSTEM_DEFAULT_CONFIG`
abbrev pub system_default : Configuration
system_default = record {
  rx_ = 12500000;
  tx_ = 0;
  rtt = 300;
  congestion = cubic;
  initial_congestion_window = 0;
  port = record { begin = 0; end = 0 };
  timeout = 5;
  udp_buffer = 4000000;
  initial_mtu = 1200;
  min_mtu = 1200;
  max_mtu = 1452;
}

abbrev pub u64_size : ℕ
u64_size = 2 ^ 64

unfoldable pub rx : Configuration → ℕ
rx c = c.rx_

unfoldable pub tx : Configuration → ℕ
unfolding rx
tx c = if c.tx_ == 0 then rx c else c.tx_

-- A product that overflows a `u64` panics or wraps, by build profile; `none` stands for both.
unfoldable pub checked_mul : ℕ → ℕ → Option ℕ
checked_mul a b = if ltb (a * b) u64_size then some (a * b) else none

abbrev pub over_1000 : Option ℕ → Option ℕ
over_1000 none = none
over_1000 (some p) = some (p / 1000)

unfoldable pub rtt_bandwidth_delay_product_tx : Configuration → Option ℕ
unfolding tx checked_mul
rtt_bandwidth_delay_product_tx c = over_1000 (checked_mul (tx c) c.rtt)

unfoldable pub rtt_bandwidth_delay_product_rx : Configuration → Option ℕ
unfolding rx checked_mul
rtt_bandwidth_delay_product_rx c = over_1000 (checked_mul (rx c) c.rtt)

unfoldable pub recv_window : Configuration → Option ℕ
unfolding rtt_bandwidth_delay_product_rx
recv_window c = rtt_bandwidth_delay_product_rx c

times_8 : Option ℕ → Option ℕ
unfolding checked_mul
times_8 none = none
times_8 (some p) = checked_mul 8 p

unfoldable pub send_window : Configuration → Option ℕ
unfolding rtt_bandwidth_delay_product_tx times_8
send_window c = times_8 (rtt_bandwidth_delay_product_tx c)

pub record ValidationData : Type 0 where
  pub rtt : ℕ
  pub rx : ℕ
  pub tx : ℕ
  pub udp : ℕ

unfoldable pub validation_data : Configuration → ValidationData
unfolding rx tx
validation_data c = record { rtt = c.rtt; rx = rx c; tx = tx c; udp = c.udp_buffer }

pub data ValidationError : Type 0 where
  rx_too_small rtt_zero rx_overflow tx_too_small tx_overflow udp_too_small min_mtu_too_small
        max_mtu_too_small initial_mtu_too_small :
      ValidationError

abbrev pub fits : Option ℕ → Bool
fits none = false
fits (some p) = true

unfoldable pub try_validate : Configuration → Result ValidationError (Unit {0})
unfolding validation_data checked_mul
try_validate c =
    let d = validation_data c in
    do
      ensure (leb minimum_bandwidth d.rx) rx_too_small
      ensure (ltb 0 d.rtt) rtt_zero
      ensure (fits (checked_mul d.rx d.rtt)) rx_overflow
      ensure (d.tx == 0 || leb minimum_bandwidth d.tx) tx_too_small
      ensure (d.tx == 0 || fits (checked_mul d.tx d.rtt)) tx_overflow
      ensure (leb minimum_udp_buffer d.udp) udp_too_small
      ensure (leb 1200 c.min_mtu) min_mtu_too_small
      ensure (leb 1200 c.max_mtu) max_mtu_too_small
      ensure (leb 1200 c.initial_mtu) initial_mtu_too_small
      ok tt

unfoldable pub validate : Configuration → Result ValidationError Configuration
unfolding try_validate
validate self = do try_validate self; ok self
