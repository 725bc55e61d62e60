-- ===== src/Session/Exchange.antt =====
-- A stream of a connection with the two ends that talk over it. An end is the `async` code of
-- qcp/src/session as the sends and receives it awaits, in order; what it does to its own file system
-- in between is part of what it goes on with. QUIC delivers in order, so that each direction is a
-- queue: of framed messages and payload bytes, whose framing is that of Protocol/Framing. Which of
-- the two ends goes on first is open.
pub mod Ending
pub mod Live
pub mod Progress
pub mod Schedule
use qcp.Prelude.{ℕ, zero, suc, Option, none, some, List, [], ◌∷◌, ◌++◌}

module _ (Item : Type 0) where
  -- What an end still does, and what it ends with. Receiving gives nothing at the end of the stream.
  -- An end that diverges neither sends nor receives again, and never finishes: the other one waits.
  pub data Endpoint (R : Type 0) : Type 0 where
    finish : R → Endpoint R
    send : Item → Endpoint R → Endpoint R
    receive : (Option Item → Endpoint R) → Endpoint R
    diverge : Endpoint R

  -- Two ends, what is under way from the first to the second, and what is under way back.
  pub data Connection (R S : Type 0) : Type 0 where
    connection : Endpoint R → Endpoint S → List Item → List Item → Connection R S

module _ {Item R S : Type 0} where
  -- The first end goes on. It sees the end of the stream once the other one has finished.
  unfoldable pub step_first : Connection Item R S → Option (Connection Item R S)
  step_first (connection (finish r) q up down) = none
  step_first (connection (send i p) q up down) = some (connection p q (up ++ i ∷ []) down)
  step_first (connection (receive k) q up (i ∷ down)) = some (connection (k (some i)) q up down)
  step_first (connection (receive k) (finish s) up []) = some (connection (k none) (finish s) up [])
  step_first (connection (receive k) (send i q) up []) = none
  step_first (connection (receive k) (receive l) up []) = none
  step_first (connection (receive k) diverge up []) = none
  step_first (connection diverge q up down) = none

  -- The second end goes on.
  unfoldable pub step_second : Connection Item R S → Option (Connection Item R S)
  step_second (connection p (finish s) up down) = none
  step_second (connection p (send i q) up down) = some (connection p q up (down ++ i ∷ []))
  step_second (connection p (receive k) (i ∷ up) down) = some (connection p (k (some i)) up down)
  step_second (connection (finish r) (receive k) [] down) =
      some (connection (finish r) (k none) [] down)
  step_second (connection (send i p) (receive k) [] down) = none
  step_second (connection (receive l) (receive k) [] down) = none
  step_second (connection diverge (receive k) [] down) = none
  step_second (connection p diverge up down) = none
