-- ===== src/Client/Job/Text.antt =====
-- The text form of a file specification, and what a copy job takes from its two.
use qcp.Prelude.{
  ◌≡◌, refl, Bool, not, Bool-cases, inl, inr, false, Option, none, some, [], ◌∷◌, ◌++◌, ok, arith,
}
use mathlib.Core.Path.{subst}
use qcp.Prelude.Text.{Str, Lacks, split_once, split_once-append, split_once-none}
use qcp.Protocol.Control.{server_to_client, client_to_server}
use qcp.Client.Job.{
  xor, FileSpec, CopyJobSpec, hostname_of, username_of, starts_with, from_bracketed, from_colon,
  from_str, display, split_bracket, try_new, direction, is_remote, xor,
}

abbrev pub Delimited : Option Str → Str → Type 0
Delimited none filename = Lacks b':' filename
Delimited (some host) filename = Lacks b':' host

-- What the text form can carry: no bracket in front, a colon only behind the host, and nothing
-- that the platform takes for a path of its own.
pub record IsPlain (is_local : Str → Bool) (f : FileSpec) : Type 0 where
  pub unbracketed : starts_with b'[' (display f) ≡ false
  pub foreign : is_local (display f) ≡ false
  pub delimited : Delimited f.user_at_host f.filename

from_colon-display :
    (host : Option Str) (filename : Str)
    → Delimited host filename
    → (s : Str) → s ≡ display (record { user_at_host = host; filename = filename })
    → from_colon s (split_once b':' s) ≡ record { user_at_host = host; filename = filename }
unfolding display from_colon
from_colon-display none filename d s e = rw (e, split_once-none b':' filename d) refl
from_colon-display (some host) filename d s e = rw (e, split_once-append b':' host filename d) refl

-- A file specification is read back from its text form, if the form carries it.
pub from_str-display_plain :
    (is_local : Str → Bool) (f : FileSpec) → IsPlain is_local f → from_str is_local (display f) ≡ f
unfolding from_str
from_str-display_plain is_local f p =
    rw (p.unbracketed, p.foreign)
      (from_colon-display f.user_at_host f.filename p.delimited (display f) refl)

split_bracket-append :
    (a b : Str) → Lacks b']' a → split_bracket (a ++ b']' ∷ b':' ∷ b) ≡ some (a, b)
unfolding split_bracket
split_bracket-append [] b h = refl
split_bracket-append (c ∷ []) b (hc, h) = ground (arith, split_bracket-append [] b h)
split_bracket-append (c ∷ d ∷ a) b (hc, h) = ground (arith, split_bracket-append (d ∷ a) b h)

-- An address in brackets is taken whole, colons and all, on every platform.
pub from_str_bracketed :
    (is_local : Str → Bool) (host filename : Str)
    → Lacks b']' host
    → from_str is_local (b'[' ∷ host ++ b']' ∷ b':' ∷ filename)
      ≡ record { user_at_host = some host; filename = filename }
unfolding from_str from_bracketed
from_str_bracketed is_local host filename h =
    rw (split_bracket-append (b'[' ∷ host) filename (ground arith, h)) refl

-- A user and a host are told apart at the first @.
pub hostname_of-append :
    (user host : Str)
    → Lacks b'@' user
    → (hostname_of (user ++ b'@' ∷ host) ≡ host) × (username_of (user ++ b'@' ∷ host) ≡ some user)
unfolding hostname_of username_of
hostname_of-append user host h = rw (split_once-append b'@' user host h) (refl, refl)

-- One side is remote; the direction says which, and the job's host is that side's.
pub data OneRemote (j : CopyJobSpec) : Type 0 where
  get :
      (host : Str)
      → j.source.user_at_host ≡ some host
      → j.destination.user_at_host ≡ none
      → direction j ≡ server_to_client
      → j.user_at_host ≡ host
      → OneRemote j
  put :
      (host : Str)
      → j.source.user_at_host ≡ none
      → j.destination.user_at_host ≡ some host
      → direction j ≡ client_to_server
      → j.user_at_host ≡ host
      → OneRemote j

accepted-OneRemote :
    (u v : Option Str) (f g : Str) (preserve directory : Bool) (j : CopyJobSpec)
    → try_new
        (record { user_at_host = u; filename = f })
        (record { user_at_host = v; filename = g })
        preserve
        directory
      ≡ ok j
    → OneRemote j
unfolding try_new direction
accepted-OneRemote none none f g p d j h = cc
accepted-OneRemote (some a) (some b) f g p d j h = cc
accepted-OneRemote (some a) none f g p d j h =
    let e : record {
      source = record { user_at_host = some a; filename = f };
      destination = record { user_at_host = none; filename = g };
      user_at_host = a;
      preserve = p;
      directory = d;
      mode = none;
    }
        ≡ j =
      cc in
    subst OneRemote e (get a refl refl refl refl)
accepted-OneRemote none (some b) f g p d j h =
    let e : record {
      source = record { user_at_host = none; filename = f };
      destination = record { user_at_host = some b; filename = g };
      user_at_host = b;
      preserve = p;
      directory = d;
      mode = none;
    }
        ≡ j =
      cc in
    subst OneRemote e (put b refl refl refl refl)

-- A job that is accepted has exactly one remote side, which its direction tells, and the job's host
-- is that side's.
pub try_new-OneRemote :
    (a b : FileSpec) (preserve directory : Bool) (j : CopyJobSpec)
    → try_new a b preserve directory ≡ ok j
    → OneRemote j
try_new-OneRemote a b preserve directory j h =
    accepted-OneRemote a.user_at_host b.user_at_host a.filename b.filename preserve directory j h

-- An accepted job is made of what was given.
pub try_new-eq :
    (a b : FileSpec) (preserve directory : Bool) (j : CopyJobSpec)
    → try_new a b preserve directory ≡ ok j
    → (j.source ≡ a) × (j.destination ≡ b) × (j.directory ≡ directory)
unfolding try_new
try_new-eq a b p d j h = elim (Bool-cases (not (xor (not (is_remote a)) (not (is_remote b))))) [
  | inl e ↦ let k = rw e at h in cc
  | inr e ↦ let k = rw e at h in (cc, cc, cc)
]
