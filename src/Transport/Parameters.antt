-- ===== src/Transport/Parameters.antt =====
-- The negotiation of one parameter: what the two layers it adds make of the two preferences.
use qcp.Prelude.{
  ℕ, ◌≤◌, ◌≡◌, min, true, Option, none, some, ◌==◌, if◌then◌else◌, get_or, ok, arith, ◌⊎◌, inr,
}
use qcp.Protocol.Control.{CongestionController, cubic}
use qcp.Util.PortRange
use qcp.Util.PortRange.{PortRange}
use qcp.Config.{system_default}
use qcp.Config.Manager.{over}
use qcp.Transport.{
  server, client, failure, Entries, negotiate_v3, min_ignoring_zero, congestion_eq, port_eq,
  combine_ports, incompatible_congestion,
}

-- The smaller of two preferences, where zero and absence are none.
abbrev pub smaller : Option ℕ → Option ℕ → Option ℕ
smaller none s = s
smaller (some c) none = some c
smaller (some c) (some s) = some (if c == 0 then s else if s == 0 then c else min c s)

-- Two preferences that have to agree.
abbrev pub agreed :
    Option CongestionController → Option CongestionController → Option CongestionController
agreed none s = s
agreed (some c) s = some c

-- The port range: that of the only side with a preference, or the solution of both.
abbrev pub SolvesPorts : Option PortRange → Option PortRange → PortRange → Type 0
SolvesPorts none none r = r ≡ system_default.port
SolvesPorts (some c) none r = r ≡ c
SolvesPorts none (some s) r = r ≡ s
SolvesPorts (some c) (some s) r = (port_eq c s ≡ true) × (r ≡ s) ⊎ (PortRange.combine c s ≡ ok r)

unfoldable pub effective {ℓ} : {T : Type ℓ} → Option T × Option T → Option T → Option T
effective e s = over e.1 (over e.0 s)

pub negotiate_smaller :
    (c s : Option ℕ) (e : Entries ℕ)
    → negotiate_v3 (◌==◌) c s min_ignoring_zero ≡ ok e
    → effective e s ≡ smaller c s
unfolding negotiate_v3 min_ignoring_zero effective
negotiate_smaller none none e h = ground arith
negotiate_smaller none (some y) e h = ground arith
negotiate_smaller (some x) none e h = ground arith
negotiate_smaller (some x) (some y) e h = ground arith

pub negotiate_client_first :
    (c s : Option ℕ) (e : Entries ℕ)
    → negotiate_v3 (◌==◌) c s (λ _ _. client) ≡ ok e
    → effective e s ≡ over c s
unfolding negotiate_v3 effective
negotiate_client_first none none e h = ground arith
negotiate_client_first none (some y) e h = ground arith
negotiate_client_first (some x) none e h = ground arith
negotiate_client_first (some x) (some y) e h = ground arith

pub negotiate_server_first :
    (c s : Option ℕ) (e : Entries ℕ)
    → negotiate_v3 (◌==◌) c s (λ _ _. server) ≡ ok e
    → effective e s ≡ over s c
unfolding negotiate_v3 effective
negotiate_server_first none none e h = ground arith
negotiate_server_first none (some y) e h = ground arith
negotiate_server_first (some x) none e h = ground arith
negotiate_server_first (some x) (some y) e h = ground arith

congestion_eq_sound : (a b : CongestionController) → congestion_eq a b ≡ true → a ≡ b
unfolding congestion_eq
congestion_eq_sound cubic b h = ground arith
congestion_eq_sound _ b h = ground arith

pub negotiate_agreed :
    (c s : Option CongestionController) (e : Entries CongestionController)
    → negotiate_v3 congestion_eq c s (λ _ _. failure incompatible_congestion) ≡ ok e
    → effective e s ≡ agreed c s
unfolding negotiate_v3 effective
negotiate_agreed none none e h = ground arith
negotiate_agreed none (some y) e h = ground arith
negotiate_agreed (some x) none e h = ground arith
negotiate_agreed (some x) (some y) e h = ground (arith, congestion_eq_sound x y)

pub negotiate_ports :
    (c s : Option PortRange) (e : Entries PortRange)
    → negotiate_v3 port_eq c s combine_ports ≡ ok e
    → SolvesPorts c s (get_or (effective e s) system_default.port)
unfolding negotiate_v3 effective combine_ports
negotiate_ports none none e h = ground arith
negotiate_ports none (some y) e h = ground arith
negotiate_ports (some x) none e h = ground arith
negotiate_ports (some x) (some y) e h = ground arith

-- No more than a limit, where there is one and it is not zero.
abbrev pub IsWithin : Option ℕ → ℕ → Type 0
IsWithin none n = Unit
IsWithin (some most) n = (most ≡ 0) ⊎ (n ≤ most)

pub smaller-IsWithin :
    (c s : Option ℕ) (d : ℕ)
    → IsWithin c (get_or (smaller c s) d) × IsWithin s (get_or (smaller c s) d)
smaller-IsWithin none none d = (tt, tt)
smaller-IsWithin none (some y) d = (tt, inr (omega arith))
smaller-IsWithin (some x) none d = (inr (omega arith), tt)
smaller-IsWithin (some x) (some y) d = ground arith
