-- ===== src/Session/Requests/Clients.antt =====
-- The client's ends of the commands never diverge.
use qcp.Prelude.{ℕ, zero, suc, Bool, true, false, List}
use qcp.Client.Job.{CopyJobSpec}
use qcp.Protocol.Compat.{Compatibility}
use qcp.Session.Directories.{answered}
use qcp.Session.Effects.{M}
use qcp.Session.Exchange.Live.{Lively, lively_rules}
use qcp.Session.Files.{FileSystem}
use qcp.Session.Get.{get_send}
use qcp.Session.List.{another, read_packets, list_send}
use qcp.Session.Listing.{ListData}

module _ {W : Type 0} (local : FileSystem W) (compat : Compatibility) (job : CopyJobSpec)
    (peak : ℕ) where
  pub get_send-Lively : Lively (get_send local compat job peak)
  unfolding get_send
  get_send-Lively = search (lively_rules) depth 30 fits 5000

module _ {W : Type 0} where
  -- A client that waits for the answer to its command.
  pub answered-Lively : Lively (answered {W = W})
  unfolding answered
  answered-Lively = search (lively_rules) depth 30 fits 5000

  another-Lively :
      (packet : ListData) (more : Bool) (rest : M W (List ListData))
      → Lively rest
      → Lively (another packet more rest)
  unfolding another
  another-Lively packet true rest h = search (lively_rules, h)
  another-Lively packet false rest h = search (lively_rules)

  read_packets-Lively : (fuel : ℕ) → Lively (read_packets {W = W} fuel)
  unfolding read_packets
  read_packets-Lively zero = search (lively_rules)
  read_packets-Lively (suc fuel) = search (lively_rules, another-Lively, read_packets-Lively fuel)

  pub list_send-Lively :
      (fuel : ℕ) (compat : Compatibility) (job : CopyJobSpec) (recursive : Bool)
      → Lively (list_send {W = W} fuel compat job recursive)
  unfolding list_send
  list_send-Lively fuel compat job recursive =
      search (lively_rules, read_packets-Lively) depth 30 fits 5000
