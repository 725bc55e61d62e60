-- ===== src/Session/Exchange/Live.antt =====
-- Ends that never diverge, whatever they receive.
use qcp.Prelude.{
  ℕ, zero, suc, Bool, true, false, Option, none, some, List, [], ◌∷◌, Result, Result-cases, inl,
  inr, ok, err, if◌then◌else◌,
}
use qcp.Prelude.Text.{Str}
use qcp.Session.Effects.{
  M, Outcome, then_, ◌>>=◌, ◌>>◌, pure, bail, ask, asked, put_world, ensure, unwrap, write_packet,
  read_packet, send_bytes, accepted, send_ok, send_error, or_return, arrived, copy_in,
}
use qcp.Session.Exchange.{Endpoint, finish, send, receive, diverge}
use qcp.Session.Files.{FileSystem}
use qcp.Session.Messages.{IoError, Failure, io, Packet, byte_, Response}

abbrev pub Live : {R : Type 0} → Endpoint Packet R → Type 0
Live (finish r) = Unit
Live (send i p) = Live p
Live (receive k) = (o : Option Packet) → Live (k o)
Live diverge = ⊥

-- Code that never diverges, and the rules for it.
pub data Lively {W A : Type 0} (m : M W A) : Type 0 where
  lively : ((w : W) → Live (m w)) → Lively m

pub Live-then_ :
    {W A B : Type 0} (p : Endpoint Packet (Outcome W A)) (f : A → M W B)
    → Live p
    → ((a : A) (w : W) → Live (f a w))
    → Live (then_ p f)
Live-then_ (finish (ok a, w)) f h k = k a w
Live-then_ (finish (err e, w)) f h k = tt
Live-then_ (send i p) f h k = Live-then_ p f h k
Live-then_ (receive g) f h k = λ o. Live-then_ (g o) f (h o) k
Live-then_ diverge f h k = absurd h

module _ {W : Type 0} where
  pub Lively-Live : {A : Type 0} {m : M W A} → Lively m → (w : W) → Live (m w)
  Lively-Live (lively h) = h

  pub bind-Lively :
      {A B : Type 0} (m : M W A) (f : A → M W B)
      → Lively m
      → ((a : A) → Lively (f a))
      → Lively (m >>= f)
  bind-Lively m f (lively h) k =
      lively (λ w. Live-then_ (m w) f (h w) (λ a w'. Lively-Live (k a) w'))

  pub then-Lively :
      {B : Type 0} (m : M W (Unit {0})) (k : M W B) → Lively m → Lively k → Lively (m >> k)
  then-Lively m k h h' = bind-Lively m (λ _. k) h (λ _. h')

  pub pure-Lively : {A : Type 0} (a : A) → Lively (pure {W = W} a)
  pure-Lively a = lively (λ w. tt)

  pub bail-Lively : {A : Type 0} (e : Failure) → Lively (bail {W = W} {A = A} e)
  bail-Lively e = lively (λ w. tt)

  pub ask-Lively : {A : Type 0} (call : W → A) → Lively (ask call)
  ask-Lively call = lively (λ w. tt)

  pub asked-Lively : {A : Type 0} (r : Result IoError A) → Lively (asked {W = W} r)
  asked-Lively (ok a) = lively (λ w. tt)
  asked-Lively (err e) = lively (λ w. tt)

  pub put_world-Lively : (w' : W) → Lively (put_world w')
  put_world-Lively w' = lively (λ w. tt)

  pub ensure-Lively : (b : Bool) (text : Str) → Lively (ensure {W = W} b text)
  ensure-Lively true text = lively (λ w. tt)
  ensure-Lively false text = lively (λ w. tt)

  pub unwrap-Lively : {A : Type 0} (o : Option A) → Lively (unwrap {W = W} o)
  unwrap-Lively none = lively (λ w. tt)
  unwrap-Lively (some a) = lively (λ w. tt)

  pub accepted-Lively : (r : Result Failure Response) → Lively (accepted {W = W} r)
  accepted-Lively (ok r) = lively (λ w. tt)
  accepted-Lively (err e) = lively (λ w. tt)

  pub write_packet-Lively : (p : Packet) → Lively (write_packet {W = W} p)
  write_packet-Lively p = lively (λ w. tt)

  pub read_packet-Lively :
      {A : Type 0} (as_message : Option Packet → Result Failure A)
      → Lively (read_packet {W = W} as_message)
  read_packet-Lively as_message = lively (λ w o. tt)

  send_bytes-Live : (bs : List ℕ) (w : W) → Live (send_bytes bs w)
  send_bytes-Live [] w = tt
  send_bytes-Live (b ∷ bs) w = send_bytes-Live bs w

  pub send_bytes-Lively : (bs : List ℕ) → Lively (send_bytes {W = W} bs)
  send_bytes-Lively bs = lively (send_bytes-Live bs)

  pub send_ok-Lively : Lively (send_ok {W = W})
  unfolding send_ok
  send_ok-Lively = lively (λ w. tt)

  pub send_error-Lively : (e : Failure) → Lively (send_error {W = W} e)
  unfolding send_error
  send_error-Lively e = lively (λ w. tt)

  pub or_return-Lively :
      {A : Type 0} (r : Result IoError A) (k : A → M W (Unit {0}))
      → ((a : A) → Lively (k a))
      → Lively (or_return r k)
  or_return-Lively (ok a) k h = h a
  or_return-Lively (err e) k h = send_error-Lively (io e)

  pub if-Lively :
      {A : Type 0} (b : Bool) (m k : M W A) → Lively m → Lively k → Lively (if b then m else k)
  if-Lively true m k h h' = h
  if-Lively false m k h h' = h'

module _ {W : Type 0} (fs : FileSystem W) (file : ℕ) where
  arrived-Live :
      (rest : M W (Result IoError (Unit {0}))) (o : Option Packet)
      → ((w : W) → Live (rest w))
      → (w : W) → Live (arrived fs file rest o w)
  arrived-Live rest none h w = tt
  arrived-Live rest (some (byte_ b)) h w = elim (Result-cases (fs.write file b w)) [
    | inl (w', e) ↦ rw (e, arrived) (h w')
    | inr (x, e) ↦ rw (e, arrived) tt
  ]
  arrived-Live rest (some _) h w = tt

  copy_in-Live : (n : ℕ) (w : W) → Live (copy_in fs file n w)
  unfolding copy_in
  copy_in-Live zero w = tt
  copy_in-Live (suc n) w = λ o. arrived-Live (copy_in fs file n) o (copy_in-Live n) w

  pub copy_in-Lively : (n : ℕ) → Lively (copy_in fs file n)
  copy_in-Lively n = lively (copy_in-Live n)

pub ruleset lively_rules = (
  bind-Lively, then-Lively, pure-Lively, bail-Lively, ask-Lively, asked-Lively, put_world-Lively,
  ensure-Lively, unwrap-Lively, accepted-Lively, write_packet-Lively, read_packet-Lively,
  send_bytes-Lively, send_ok-Lively, send_error-Lively, or_return-Lively, if-Lively, copy_in-Lively,
)
