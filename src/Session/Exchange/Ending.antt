-- ===== src/Session/Exchange/Ending.antt =====
-- How an exchange comes to its end, whatever is under way.
use qcp.Prelude.{
  ℕ, refl, Bool, true, false, Option, none, some, List, [], ◌∷◌, ◌++◌, Result, ok, err,
  if◌then◌else◌,
}
use qcp.Prelude.Text.{Str}
use qcp.Session.Effects.{
  M, Outcome, then_, ◌>>=◌, ◌>>◌, pure, bail, ask, asked, put_world, ensure, unwrap, write_packet,
  send_bytes, send_ok, send_error, or_return,
}
use qcp.Session.Exchange.{
  Endpoint, finish, send, receive, diverge, Connection, connection, step_first, step_second,
}
use qcp.Session.Exchange.Live.{Live, Lively, lively}
use qcp.Session.Exchange.Progress.{
  Reaches, Reaches-trans, stays, goes, first_sends, second_sends, first_receives, second_receives,
}
use qcp.Session.Exchange.Schedule.{first, second, IsOver}
use qcp.Session.Messages.{IoError, Failure, io, Packet}

module _ {R S : Type 0} where
  -- Some schedule takes both ends to their ends.
  abbrev pub Ends : Connection Packet R S → Type 0
  Ends c = (t : Connection Packet R S) × IsOver t × Reaches c t

  pub Reaches-Ends : {c d : Connection Packet R S} → Reaches c d → Ends d → Ends c
  Reaches-Ends run (t, over, rest) = (t, over, Reaches-trans run rest)

  -- Once one end has finished, the other one never waits in vain, and ends unless it diverges.
  pub second_finished :
      (p : Endpoint Packet R) (s : S) (up down : List Packet)
      → Live p
      → Ends (connection p (finish s) up down)
  unfolding step_first
  second_finished (finish r) s up down live =
      (connection (finish r) (finish s) up down, tt, stays _)
  second_finished (send i p) s up down live =
      Reaches-Ends (goes (first_sends i p (finish s) up down) (stays _))
        (second_finished p s (up ++ i ∷ []) down live)
  second_finished (receive k) s up [] live =
      Reaches-Ends (goes (first refl) (stays _)) (second_finished (k none) s up [] (live none))
  second_finished (receive k) s up (i ∷ down) live =
      Reaches-Ends (goes (first_receives i k (finish s) up down) (stays _))
        (second_finished (k (some i)) s up down (live (some i)))
  second_finished diverge s up down live = absurd live

  pub first_finished :
      (r : R) (q : Endpoint Packet S) (up down : List Packet)
      → Live q
      → Ends (connection (finish r) q up down)
  unfolding step_second
  first_finished r (finish s) up down live = (connection (finish r) (finish s) up down, tt, stays _)
  first_finished r (send i q) up down live =
      Reaches-Ends (goes (second_sends i (finish r) q up down) (stays _))
        (first_finished r q up (down ++ i ∷ []) live)
  first_finished r (receive k) [] down live =
      Reaches-Ends (goes (second refl) (stays _)) (first_finished r (k none) [] down (live none))
  first_finished r (receive k) (i ∷ up) down live =
      Reaches-Ends (goes (second_receives i (finish r) k up down) (stays _))
        (first_finished r (k (some i)) up down (live (some i)))
  first_finished r diverge up down live = absurd live

-- An end that no longer waits for anything, and does not diverge.
abbrev pub Silent : {R : Type 0} → Endpoint Packet R → Type 0
Silent (finish r) = Unit
Silent (send i p) = Silent p
Silent (receive k) = ⊥
Silent diverge = ⊥

pub Silent-Ends :
    {R S : Type 0} (p : Endpoint Packet R) (q : Endpoint Packet S) (up down : List Packet)
    → Live p
    → Silent q
    → Ends (connection p q up down)
Silent-Ends p (finish s) up down live quiet = second_finished p s up down live
Silent-Ends p (send i q) up down live quiet =
    Reaches-Ends (goes (second_sends i p q up down) (stays _))
      (Silent-Ends p q up (down ++ i ∷ []) live quiet)
Silent-Ends p (receive k) up down live quiet = absurd quiet
Silent-Ends p diverge up down live quiet = absurd quiet

-- Code that waits for nothing, and the rules for it.
pub data Quiet {W A : Type 0} (m : M W A) : Type 0 where
  quiet : ((w : W) → Silent (m w)) → Quiet m

Silent-Live : {R : Type 0} (p : Endpoint Packet R) → Silent p → Live p
Silent-Live (finish r) h = tt
Silent-Live (send i p) h = Silent-Live p h
Silent-Live (receive k) h = absurd h
Silent-Live diverge h = absurd h

Silent-then_ :
    {W A B : Type 0} (p : Endpoint Packet (Outcome W A)) (f : A → M W B)
    → Silent p
    → ((a : A) (w : W) → Silent (f a w))
    → Silent (then_ p f)
Silent-then_ (finish (ok a, w)) f h k = k a w
Silent-then_ (finish (err e, w)) f h k = tt
Silent-then_ (send i p) f h k = Silent-then_ p f h k
Silent-then_ (receive g) f h k = absurd h
Silent-then_ diverge f h k = absurd h

module _ {W : Type 0} where
  pub Quiet-Silent : {A : Type 0} {m : M W A} → Quiet m → (w : W) → Silent (m w)
  Quiet-Silent (quiet h) = h

  pub Quiet-Lively : {A : Type 0} {m : M W A} → Quiet m → Lively m
  Quiet-Lively {m} (quiet h) = lively (λ w. Silent-Live (m w) (h w))

  pub bind-Quiet :
      {A B : Type 0} (m : M W A) (f : A → M W B)
      → Quiet m
      → ((a : A) → Quiet (f a))
      → Quiet (m >>= f)
  bind-Quiet m f (quiet h) k =
      quiet (λ w. Silent-then_ (m w) f (h w) (λ a w'. Quiet-Silent (k a) w'))

  pub then-Quiet :
      {B : Type 0} (m : M W (Unit {0})) (k : M W B) → Quiet m → Quiet k → Quiet (m >> k)
  then-Quiet m k h h' = bind-Quiet m (λ _. k) h (λ _. h')

  pub pure-Quiet : {A : Type 0} (a : A) → Quiet (pure {W = W} a)
  pure-Quiet a = quiet (λ w. tt)

  pub bail-Quiet : {A : Type 0} (e : Failure) → Quiet (bail {W = W} {A = A} e)
  bail-Quiet e = quiet (λ w. tt)

  pub ask-Quiet : {A : Type 0} (call : W → A) → Quiet (ask call)
  ask-Quiet call = quiet (λ w. tt)

  -- What follows a system call only has to be quiet after its own answer.
  pub asked_for-Quiet :
      {A B : Type 0} (call : W → A) (f : A → M W B)
      → ((w : W) → Quiet (f (call w)))
      → Quiet (ask call >>= f)
  asked_for-Quiet call f h = quiet (λ w. Quiet-Silent (h w) w)

  pub asked-Quiet : {A : Type 0} (r : Result IoError A) → Quiet (asked {W = W} r)
  asked-Quiet (ok a) = quiet (λ w. tt)
  asked-Quiet (err e) = quiet (λ w. tt)

  pub put_world-Quiet : (w' : W) → Quiet (put_world w')
  put_world-Quiet w' = quiet (λ w. tt)

  pub ensure-Quiet : (b : Bool) (text : Str) → Quiet (ensure {W = W} b text)
  ensure-Quiet true text = quiet (λ w. tt)
  ensure-Quiet false text = quiet (λ w. tt)

  pub unwrap-Quiet : {A : Type 0} (o : Option A) → Quiet (unwrap {W = W} o)
  unwrap-Quiet none = quiet (λ w. tt)
  unwrap-Quiet (some a) = quiet (λ w. tt)

  pub write_packet-Quiet : (p : Packet) → Quiet (write_packet {W = W} p)
  write_packet-Quiet p = quiet (λ w. tt)

  send_bytes-Silent : (bs : List ℕ) (w : W) → Silent (send_bytes bs w)
  send_bytes-Silent [] w = tt
  send_bytes-Silent (b ∷ bs) w = send_bytes-Silent bs w

  pub send_bytes-Quiet : (bs : List ℕ) → Quiet (send_bytes {W = W} bs)
  send_bytes-Quiet bs = quiet (send_bytes-Silent bs)

  pub send_ok-Quiet : Quiet (send_ok {W = W})
  unfolding send_ok
  send_ok-Quiet = quiet (λ w. tt)

  pub send_error-Quiet : (e : Failure) → Quiet (send_error {W = W} e)
  unfolding send_error
  send_error-Quiet e = quiet (λ w. tt)

  pub or_return-Quiet :
      {A : Type 0} (r : Result IoError A) (k : A → M W (Unit {0}))
      → ((a : A) → Quiet (k a))
      → Quiet (or_return r k)
  or_return-Quiet (ok a) k h = h a
  or_return-Quiet (err e) k h = send_error-Quiet (io e)

  pub if-Quiet :
      {A : Type 0} (b : Bool) (m k : M W A) → Quiet m → Quiet k → Quiet (if b then m else k)
  if-Quiet true m k h h' = h
  if-Quiet false m k h h' = h'

pub ruleset quiet_rules = (
  bind-Quiet, then-Quiet, pure-Quiet, bail-Quiet, ask-Quiet, asked-Quiet, put_world-Quiet,
  ensure-Quiet, unwrap-Quiet, write_packet-Quiet, send_bytes-Quiet, send_ok-Quiet, send_error-Quiet,
  or_return-Quiet, if-Quiet,
)
