-- ===== src/Client/Jobspecs/Hosts.antt =====
-- The jobs of a command line and the one host that it names.
use qcp.Prelude.{
  ◌≤◌, ◌≡◌, ◌⊎◌, refl, Bool, true, false, Option, none, some, List, [], ◌∷◌, ◌++◌, length, ok,
  ensure, >>=-eq-ok, any, All, arith, Bool-cases, Option-cases, inl, inr,
}
use qcp.Prelude.Text.{Str, str_eq, str_eq_sound, str_eq_refl}
use qcp.Client.Job.{FileSpec, is_remote}
use qcp.Client.Jobspecs.{
  hostname, remote_user, note_host, note_user, scan_remotes, all_sources, check_sides, lossy,
}

-- A path on this host, or a local one.
abbrev pub OnHost : Str → FileSpec → Type 0
OnHost host f = (hostname f ≡ none) ⊎ (hostname f ≡ some host)

note_host-length : (o : Option Str) (hosts : List Str) → length hosts ≤ length (note_host o hosts)
unfolding note_host
note_host-length none hosts = omega arith
note_host-length (some host) hosts = elim (Bool-cases (any (str_eq host) hosts)) [
  | inl e ↦ rw e (omega arith)
  | inr e ↦ rw e (omega arith)
]

scan_remotes-length :
    (specs : List FileSpec) (hosts : List Str) (user : Option Str) (out : List Str)
    → scan_remotes specs hosts user ≡ ok out
    → length hosts ≤ length out
unfolding scan_remotes
scan_remotes-length [] hosts user out h = let same : hosts ≡ out = cc in rw same (omega arith)
scan_remotes-length (spec ∷ specs) hosts user out h =
    let (noted, _, hk) = >>=-eq-ok (note_user (remote_user spec) user) _ h in
    omega (
      arith,
      note_host-length (hostname spec) hosts,
      scan_remotes-length specs (note_host (hostname spec) hosts) noted out hk,
    )

-- A second host shows in the number of hosts.
note_host-one :
    (o : Option Str) (host : Str)
    → length (note_host o (host ∷ [])) ≤ 1
    → (note_host o (host ∷ []) ≡ host ∷ []) × ((o ≡ none) ⊎ (o ≡ some host))
unfolding note_host
note_host-one none host h = (refl, inl refl)
note_host-one (some other) host h = elim (Bool-cases (str_eq other host)) [
  | inl e ↦ (rw e refl, inr (rw (str_eq_sound other host e) refl))
  | inr e ↦ let k : 2 ≤ 1 = rw e at h in ground (arith, k)
]

scan_remotes-one :
    (specs : List FileSpec) (host : Str) (user : Option Str) (out : List Str)
    → scan_remotes specs (host ∷ []) user ≡ ok out
    → length out ≤ 1
    → All (OnHost host) specs
unfolding scan_remotes
scan_remotes-one [] host user out h small = tt
scan_remotes-one (spec ∷ specs) host user out h small =
    let (noted, _, hk) = >>=-eq-ok (note_user (remote_user spec) user) _ h in
    let grown = scan_remotes-length specs (note_host (hostname spec) (host ∷ [])) noted out hk in
    let (same, here) = note_host-one (hostname spec) host (omega (arith, grown, small)) in
    (here, scan_remotes-one specs host noted out (rw same at hk) small)

pub scan_remotes-OnHost :
    (specs : List FileSpec) (user : Option Str) (out : List Str)
    → scan_remotes specs [] user ≡ ok out
    → length out ≤ 1
    → (host : Str) × All (OnHost host) specs
unfolding scan_remotes note_host
scan_remotes-OnHost [] user out h small = ([], tt)
scan_remotes-OnHost (spec ∷ specs) user out h small =
    let (noted, _, hk) = >>=-eq-ok (note_user (remote_user spec) user) _ h in
    elim (Option-cases (hostname spec)) [
      | inl e ↦
          let (host, all) = scan_remotes-OnHost specs noted out (rw e at hk) small in
          (host, (inl e, all))
      | inr (host, e) ↦ (host, (inr e, scan_remotes-one specs host noted out (rw e at hk) small))
    ]

-- The sides that a command line may have.
pub data Sides (sources : List FileSpec) (destination : FileSpec) : Type 0 where
  put :
      is_remote destination ≡ true
      → All (λ f. is_remote f ≡ false) sources
      → Sides sources destination
  get :
      is_remote destination ≡ false
      → All (λ f. is_remote f ≡ true) sources
      → any is_remote sources ≡ true
      → Sides sources destination

all_sources-local :
    (fs : List FileSpec) → all_sources false fs ≡ true → All (λ f. is_remote f ≡ false) fs
all_sources-local [] h = tt
all_sources-local (f ∷ fs) h = elim (Bool-cases (is_remote f)) [
  | inl e ↦ let k = rw e at h in cc
  | inr e ↦ (e, all_sources-local fs (rw e at h))
]

all_sources-remote :
    (fs : List FileSpec) → all_sources true fs ≡ true → All (λ f. is_remote f ≡ true) fs
all_sources-remote [] h = tt
all_sources-remote (f ∷ fs) h = elim (Bool-cases (is_remote f)) [
  | inl e ↦ (e, all_sources-remote fs (rw e at h))
  | inr e ↦ let k = rw e at h in cc
]

pub ensure-eq-ok : {E : Type 0} (b : Bool) (e : E) (u : Unit {0}) → ensure b e ≡ ok u → b ≡ true
ensure-eq-ok true e u h = refl
ensure-eq-ok false e u h = cc

pub check_sides-Sides :
    (sources : List FileSpec) (destination : FileSpec) (u : Unit {0})
    → check_sides sources destination ≡ ok u
    → Sides sources destination
unfolding check_sides
check_sides-Sides sources destination u h = elim (Bool-cases (is_remote destination)) [
  | inl e ↦
      let k = rw e at h in
      put e (all_sources-local sources (ensure-eq-ok (all_sources false sources) _ u k))
  | inr e ↦
      let (v, hv, hk) = >>=-eq-ok (ensure (any is_remote sources) _) _ (rw e at h) in
      get e (all_sources-remote sources (ensure-eq-ok (all_sources true sources) _ u hk))
        (ensure-eq-ok (any is_remote sources) _ v hv)
]

-- What a path on the host gives to the search for the host.
remote-hostname :
    (host : Str) (f : FileSpec) → OnHost host f → is_remote f ≡ true → hostname f ≡ some host
unfolding hostname
remote-hostname host f (inr e) h = e
remote-hostname host f (inl e) h = elim (Option-cases f.user_at_host) [
  | inl k ↦ let x = rw k at h in cc
  | inr (s, k) ↦ let x = rw k at e in cc
]

remote-hostnames :
    (host : Str) (fs : List FileSpec)
    → All (OnHost host) fs
    → All (λ f. is_remote f ≡ true) fs
    → All (λ f. hostname f ≡ some host) fs
remote-hostnames host [] on all = tt
remote-hostnames host (f ∷ fs) (hf, on) (h, all) =
    (remote-hostname host f hf h, remote-hostnames host fs on all)

local-hostname : (f : FileSpec) → is_remote f ≡ false → hostname f ≡ none
unfolding hostname
local-hostname f h = elim (Option-cases f.user_at_host) [
  | inl k ↦ rw k refl
  | inr (s, k) ↦ let x = rw k at h in cc
]

lossy-put :
    (host : Str) (sources : List FileSpec) (destination : FileSpec)
    → hostname destination ≡ some host
    → All (λ f. is_remote f ≡ false) sources
    → lossy (sources ++ destination ∷ []) none false ≡ ok (some host)
unfolding lossy
lossy-put host [] destination h all = rw (lossy, h) refl
lossy-put host (f ∷ fs) destination h (local, all) =
    rw (lossy, local-hostname f local) (lossy-put host fs destination h all)

-- Past the first remote source.
lossy-get :
    (host : Str) (sources : List FileSpec) (destination : FileSpec)
    → hostname destination ≡ none
    → All (λ f. hostname f ≡ some host) sources
    → lossy (sources ++ destination ∷ []) (some host) true ≡ ok (some host)
unfolding lossy
lossy-get host [] destination h all = rw (lossy, h) refl
lossy-get host (f ∷ []) destination h (e, all) =
    rw (lossy, e, str_eq_refl host) (lossy-get host [] destination h tt)
lossy-get host (f ∷ g ∷ fs) destination h (e, all) =
    rw (lossy, e, str_eq_refl host) (lossy-get host (g ∷ fs) destination h all)

lossy-first :
    (host : Str) (f : FileSpec) (fs : List FileSpec) (destination : FileSpec)
    → hostname destination ≡ none
    → All (λ f. hostname f ≡ some host) (f ∷ fs)
    → lossy (f ∷ (fs ++ destination ∷ [])) none false ≡ ok (some host)
unfolding lossy
lossy-first host f [] destination h (e, all) = rw (lossy, e) (lossy-get host [] destination h tt)
lossy-first host f (g ∷ fs) destination h (e, all) =
    rw (lossy, e) (lossy-get host (g ∷ fs) destination h all)

pub Sides-lossy :
    (host : Str) (sources : List FileSpec) (destination : FileSpec)
    → Sides sources destination
    → All (OnHost host) sources
    → OnHost host destination
    → lossy (sources ++ destination ∷ []) none false ≡ ok (some host)
Sides-lossy host sources destination (put e all) on here =
    lossy-put host sources destination (remote-hostname host destination here e) all
Sides-lossy host [] destination (get e all some_source) on here = cc
Sides-lossy host (f ∷ fs) destination (get e (h, all) some_source) (hf, on) here =
    lossy-first host f fs destination (local-hostname destination e)
      (remote-hostname host f hf h, remote-hostnames host fs on all)
