-- ===== src/Transport/Gathering.antt =====
-- What a successful negotiation is made of: a success for each parameter, and the two layers.
use qcp.Prelude.{ℕ, ◌≡◌, refl, Result, ok}
use qcp.Protocol.Control.{CongestionController}
use qcp.Util.PortRange.{PortRange}
use qcp.Config.{ConfigurationOptional}
use qcp.Transport.{
  NegotiationError, Entries, layer, gather, rx_entries, tx_entries, rtt_entries, congestion_entries,
  window_entries, port_entries, timeout_entries, negotiate, Attributes,
}

-- The parts of a successful negotiation.
pub record Gathered (reread : ℕ → ℕ) (s : ConfigurationOptional) (ca : Attributes)
    (layers : ConfigurationOptional × ConfigurationOptional) : Type 0 where
  pub rx : Entries ℕ
  pub rx_ok : rx_entries s ca ≡ ok rx
  pub tx : Entries ℕ
  pub tx_ok : tx_entries s ca ≡ ok tx
  pub rtt : Entries ℕ
  pub rtt_ok : rtt_entries s ca ≡ ok rtt
  pub congestion : Entries CongestionController
  pub congestion_ok : congestion_entries s ca ≡ ok congestion
  pub window : Entries ℕ
  pub window_ok : window_entries s ca ≡ ok window
  pub port : Entries PortRange
  pub port_ok : port_entries s ca ≡ ok port
  pub timeout : Entries ℕ
  pub timeout_ok : timeout_entries s ca ≡ ok timeout
  pub client_layer : layers.0 ≡ layer reread rx.0 tx.0 rtt.0 congestion.0 window.0 port.0 timeout.0
  pub resolved_layer :
      layers.1 ≡ layer reread rx.1 tx.1 rtt.1 congestion.1 window.1 port.1 timeout.1

abbrev Parts :
    (ℕ → ℕ)
    → Result NegotiationError (Entries ℕ)
    → Result NegotiationError (Entries ℕ)
    → Result NegotiationError (Entries ℕ)
    → Result NegotiationError (Entries CongestionController)
    → Result NegotiationError (Entries ℕ)
    → Result NegotiationError (Entries PortRange)
    → Result NegotiationError (Entries ℕ)
    → ConfigurationOptional × ConfigurationOptional
    → Type 0
Parts reread rxs txs rtts congestions windows ports timeouts layers =
    (a : Entries ℕ) × (rxs ≡ ok a)
    × (b : Entries ℕ) × (txs ≡ ok b)
    × (c : Entries ℕ) × (rtts ≡ ok c)
    × (d : Entries CongestionController) × (congestions ≡ ok d)
    × (e : Entries ℕ) × (windows ≡ ok e)
    × (f : Entries PortRange) × (ports ≡ ok f)
    × (g : Entries ℕ) × (timeouts ≡ ok g)
    × (layers.0 ≡ layer reread a.0 b.0 c.0 d.0 e.0 f.0 g.0)
    × (layers.1 ≡ layer reread a.1 b.1 c.1 d.1 e.1 f.1 g.1)

gather-Parts :
    (reread : ℕ → ℕ) (rxs txs rtts : Result NegotiationError (Entries ℕ))
    (congestions : Result NegotiationError (Entries CongestionController))
    (windows : Result NegotiationError (Entries ℕ))
    (port_ranges : Result NegotiationError (Entries PortRange))
    (timeouts : Result NegotiationError (Entries ℕ))
    (layers : ConfigurationOptional × ConfigurationOptional)
    → gather reread rxs txs rtts congestions windows port_ranges timeouts ≡ ok layers
    → Parts reread rxs txs rtts congestions windows port_ranges timeouts layers
unfolding gather
gather-Parts reread (ok a) (ok b) (ok c) (ok d) (ok e) (ok f) (ok g) layers h =
    (a, refl, b, refl, c, refl, d, refl, e, refl, f, refl, g, refl, cc, cc)
gather-Parts reread _ _ _ _ _ _ _ layers h = cc

pub negotiate-Gathered :
    (reread : ℕ → ℕ) (s : ConfigurationOptional) (ca : Attributes)
    (layers : ConfigurationOptional × ConfigurationOptional)
    → negotiate reread s ca ≡ ok layers
    → Gathered reread s ca layers
unfolding negotiate
negotiate-Gathered reread s ca layers h =
    let (a, ha, b, hb, c, hc, d, hd, e, he, f, hf, g, hg, first, second) =
      gather-Parts reread (rx_entries s ca) (tx_entries s ca) (rtt_entries s ca)
        (congestion_entries s ca) (window_entries s ca) (port_entries s ca) (timeout_entries s ca)
        layers h in
    record {
      rx = a;
      rx_ok = ha;
      tx = b;
      tx_ok = hb;
      rtt = c;
      rtt_ok = hc;
      congestion = d;
      congestion_ok = hd;
      window = e;
      window_ok = he;
      port = f;
      port_ok = hf;
      timeout = g;
      timeout_ok = hg;
      client_layer = first;
      resolved_layer = second;
    }
