-- ===== src/Protocol/Control/ServerMsg/Agreement.antt =====
-- The configuration that the client ends with, against the server's.
use qcp.Prelude.{
  ℕ, ◌≡◌, refl, Bool, true, false, Option, none, some, List, ◌==◌, if◌then◌else◌, get_or, arith, ap,
}
use qcp.Prelude.Text.{Str}
use qcp.Protocol.Variant.{into_bytes}
use qcp.Protocol.DataTag.{TaggedData}
use qcp.Protocol.Compat.{Compatibility, cmsg_smsg_2, supports}
use qcp.Protocol.Control.{CongestionController, cubic, CredentialsType}
use qcp.Config.{Configuration, ConfigurationOptional, rx as rx_of, tx as tx_of}
use qcp.Config.Manager.{over, merge, with_system_default}
use qcp.Protocol.Control.ServerMsg.{non_default, nonzero}
use qcp.Protocol.Control.ServerMsg.Layers.{layer_of, delivered, layer, delivered-layer}

-- `run_client`: the message is merged over the client's own layers, above the defaults.
abbrev pub client_view : ConfigurationOptional → Option ConfigurationOptional → Option Configuration
unfolding merge with_system_default
client_view m none = none
client_view m (some l) = some (with_system_default (merge m l))

-- The two ends of a connection, as far as the message settles them.
pub record Agree (m : ConfigurationOptional) (server client : Configuration) : Type 0 where
  pub rx : client.rx_ ≡ tx_of server
  pub tx : client.tx_ ≡ rx_of server
  pub rtt : client.rtt ≡ server.rtt
  pub congestion : client.congestion ≡ server.congestion
  pub initial_congestion_window : client.initial_congestion_window ≡ (
      if server.initial_congestion_window == 0
      then get_or m.initial_congestion_window 0
      else server.initial_congestion_window)
  pub timeout :
      client.timeout ≡ (if server.timeout == 0 then get_or m.timeout 5 else server.timeout)

-- What the client's own layers may say of the controller: nothing, or what the server uses.
abbrev pub Compatible : Option CongestionController → CongestionController → Type 0
Compatible none cc = Unit
Compatible (some mine) cc = mine ≡ cc

congestion_view :
    (sent_default : Bool) (mine : Option CongestionController) (cc : CongestionController)
    → Compatible mine cc
    → get_or (over (if sent_default then non_default cc else some cc) mine) cubic ≡ cc
congestion_view true none cubic h = refl
congestion_view true none _ h = refl
congestion_view true (some mine) cubic h = h
congestion_view true (some mine) _ h = refl
congestion_view false mine cc h = refl

number_view :
    (n d : ℕ) (mine : Option ℕ)
    → get_or (over (nonzero n) mine) d ≡ (if n == 0 then get_or mine d else n)
number_view n d mine = ground arith

module _ (c : Configuration) (port : ℕ) (credentials : TaggedData CredentialsType) (cert : List ℕ)
    (valid : into_bytes credentials.payload ≡ some cert) (name warning : Str) where
  -- Where the server's credentials hold bytes, and the client's own controller is unset or the
  -- server's: whatever version is sent, the client's bandwidths are the server's with their directions
  -- exchanged, and its round trip time, its controller, its timeout and its window are the server's;
  -- but where the server's window or timeout is zero, the client keeps its own or the default.
  pub delivered-Agree :
      (compat : Compatibility) (m : ConfigurationOptional)
      → Compatible m.congestion c.congestion
      → (client : Configuration) × (client_view m
            (layer (delivered compat c port credentials name warning))
          ≡ some client)
        × Agree m c client
  unfolding merge with_system_default
  delivered-Agree compat m h =
      let l =
        layer_of c
          (if supports compat cmsg_smsg_2 then non_default c.congestion else some c.congestion) in
      (
        with_system_default (merge m l),
        ap (client_view m) (delivered-layer c port credentials cert valid name warning compat),
        record {
          rx = refl;
          tx = refl;
          rtt = refl;
          congestion = congestion_view (supports compat cmsg_smsg_2) m.congestion c.congestion h;
          initial_congestion_window =
              number_view c.initial_congestion_window 0 m.initial_congestion_window;
          timeout = number_view c.timeout 5 m.timeout;
        },
      )
