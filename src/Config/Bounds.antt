-- ===== src/Config/Bounds.antt =====
-- A validated configuration can be used: no later computation overflows.
use qcp.Prelude.{◌*◌, ◌/◌, ◌≤◌, ◌<◌, ◌≡◌, ◌↔◌, some, ok, arith}
use qcp.Config.{
  Configuration, minimum_bandwidth, minimum_udp_buffer, u64_size, rx, tx, recv_window, send_window,
  validate,
}

-- What the validation promises of a configuration.
pub record IsUsable (c : Configuration) : Type 0 where
  pub enough_rx : minimum_bandwidth ≤ rx c
  pub enough_tx : minimum_bandwidth ≤ tx c
  pub some_rtt : 0 < c.rtt
  pub udp : minimum_udp_buffer ≤ c.udp_buffer
  pub rx_product : rx c * c.rtt < u64_size
  pub tx_product : tx c * c.rtt < u64_size
  pub min_mtu : 1200 ≤ c.min_mtu
  pub max_mtu : 1200 ≤ c.max_mtu
  pub initial_mtu : 1200 ≤ c.initial_mtu

-- A configuration that passes is returned as it is.
pub validate_sound : (c d : Configuration) → validate c ≡ ok d → (d ≡ c) × IsUsable c
unfolding validate
validate_sound c d h = (ground arith, ground arith)

validate_complete : (c : Configuration) → IsUsable c → validate c ≡ ok c
unfolding validate
validate_complete c u = ground arith

-- The validation accepts exactly the usable configurations, and returns them unchanged.
pub validate-IsUsable : (c d : Configuration) → (validate c ≡ ok d) ↔ ((d ≡ c) × IsUsable c)
validate-IsUsable c d = (validate_sound c d, λ (same, u). rw same (validate_complete c u))

windows_of_IsUsable :
    (c : Configuration)
    → IsUsable c
    → (recv_window c ≡ some (rx c * c.rtt / 1000))
      × (send_window c ≡ some (8 * (tx c * c.rtt / 1000)))
unfolding recv_window send_window
windows_of_IsUsable c u = (ground arith, ground arith)

-- With a validated configuration neither window computation overflows: the receive window is the
-- bandwidth delay product, and the send window eight times that of the other direction.
pub validate-windows :
    (c d : Configuration)
    → validate c ≡ ok d
    → (recv_window d ≡ some (rx d * d.rtt / 1000))
      × (send_window d ≡ some (8 * (tx d * d.rtt / 1000)))
validate-windows c d h = let (same, u) = validate_sound c d h in rw same (windows_of_IsUsable c u)
