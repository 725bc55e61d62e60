-- ===== src/Client/Jobspecs/Users.antt =====
-- The one remote user of a command line.
use qcp.Prelude.{
  ◌≡◌, ◌⊎◌, refl, Option, none, some, List, [], ◌∷◌, ok, >>=-eq-ok, All, Bool-cases, Option-cases,
  inl, inr,
}
use qcp.Prelude.Text.{Str, str_eq, str_eq_sound, str_eq_refl}
use qcp.Client.Job.{FileSpec}
use qcp.Client.Jobspecs.{remote_user, hostname, note_host, note_user, scan_remotes, user_of}

-- A path that names this user, or no user.
abbrev pub OfUser : Option Str → FileSpec → Type 0
OfUser user f = (remote_user f ≡ none) ⊎ (remote_user f ≡ user)

noted_same :
    (name existing : Str) (noted : Option Str)
    → note_user (some name) (some existing) ≡ ok noted
    → (existing ≡ name) × (noted ≡ some existing)
unfolding note_user
noted_same name existing noted h = elim (Bool-cases (str_eq existing name)) [
  | inl e ↦ let k = rw e at h in (str_eq_sound existing name e, cc)
  | inr e ↦ let k = rw e at h in cc
]

-- Once there is a user, every other path names that one or none.
scan_remotes_with-user :
    (specs : List FileSpec) (hosts out : List Str) (user : Str)
    → scan_remotes specs hosts (some user) ≡ ok out
    → (user_of specs (some user) ≡ some user) × All (OfUser (some user)) specs
unfolding scan_remotes user_of
scan_remotes_with-user [] hosts out user h = (refl, tt)
scan_remotes_with-user (spec ∷ specs) hosts out user h =
    let known = note_host (hostname spec) hosts in
    elim (Option-cases (remote_user spec)) [
      | inl e ↦
          let (same, all) = scan_remotes_with-user specs known out user (rw e at h) in
          (rw (user_of, e) same, (inl e, all))
      | inr (name, e) ↦
          let (noted, hn, hk) = >>=-eq-ok (note_user (some name) (some user)) _ (rw e at h) in
          let (this, kept) = noted_same name user noted hn in
          let (same, all) = scan_remotes_with-user specs known out user (rw kept at hk) in
          (rw (user_of, e, ← this, str_eq_refl user) same, (inr (rw (e, this) refl), all))
    ]

-- If the paths have one user, it is the one that the configuration gets.
pub scan_remotes-OfUser :
    (specs : List FileSpec) (hosts out : List Str)
    → scan_remotes specs hosts none ≡ ok out
    → (user : Option Str) × (user_of specs none ≡ user) × All (OfUser user) specs
unfolding scan_remotes user_of
scan_remotes-OfUser [] hosts out h = (none, refl, tt)
scan_remotes-OfUser (spec ∷ specs) hosts out h =
    let known = note_host (hostname spec) hosts in
    elim (Option-cases (remote_user spec)) [
      | inl e ↦
          let (user, same, all) = scan_remotes-OfUser specs known out (rw e at h) in
          (user, rw (user_of, e) same, (inl e, all))
      | inr (name, e) ↦
          let (same, all) = scan_remotes_with-user specs known out name (rw e at h) in
          (some name, rw (user_of, e) same, (inr e, all))
    ]
