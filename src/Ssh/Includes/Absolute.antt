-- ===== src/Ssh/Includes/Absolute.antt =====
-- Where the files of an Include directive are looked for.
use qcp.Prelude.{
  ◌≡◌, ◌⊎◌, refl, Bool, true, false, Option, none, some, List, [], ◌∷◌, if◌then◌else◌, Result, ok,
  >>=-eq-ok, Bool-cases, inl, inr,
}
use qcp.Prelude.Text.{Str, codes}
use qcp.Util.FilePath.{starts_absolute, ends_with, push}
use qcp.Ssh.Includes.{
  Environment, IncludeError, ok_or, no_home_dir, no_system_dir, bad_pattern, starts_with_tilde,
  expand_home_directory, expanded, rooted, relative_to, flatten, find_include_files,
}

abbrev pub IsAbsolute : Str → Type 0
IsAbsolute path = starts_absolute path ≡ true

abbrev AllOf : Option Str → Type 0
AllOf none = Unit
AllOf (some path) = IsAbsolute path

push-IsAbsolute : (base path : Str) → IsAbsolute base → IsAbsolute (push base path)
unfolding push
push-IsAbsolute [] path h = cc
push-IsAbsolute (c ∷ base) path h = elim (Bool-cases (starts_absolute path)) [
  | inl e ↦ rw e e
  | inr e ↦ elim (Bool-cases (ends_with b'/' (c ∷ base))) [
    | inl k ↦ rw (e, k) h
    | inr k ↦ rw (e, k) h
  ]
]

ok_or-eq-ok : {A : Type 0} (e : IncludeError) (o : Option A) (a : A) → ok_or e o ≡ ok a → o ≡ some a
ok_or-eq-ok e none a h = cc
ok_or-eq-ok e (some b) a h = cc

-- What a pattern is made of: an absolute argument itself; a path of the user's own file, below a
-- home directory or the user's ssh directory; or below the directory of the system's files.
pub data Origin (env : Environment) (is_user : Bool) (arg pattern : Str) : Type 0 where
  given : starts_absolute arg ≡ true → pattern ≡ arg → Origin env is_user arg pattern
  home :
      (path : Str)
      → is_user ≡ true
      → expand_home_directory env arg ≡ ok path
      → rooted env true path ≡ ok pattern
      → Origin env is_user arg pattern
  user_file :
      (dir : Str)
      → is_user ≡ true
      → env.home_dir ≡ some dir
      → pattern ≡ push (push dir (codes ".ssh")) arg
      → Origin env is_user arg pattern
  system_file :
      (dir : Str)
      → is_user ≡ false
      → env.system_ssh_dir_path ≡ some dir
      → pattern ≡ push dir arg
      → Origin env is_user arg pattern

if-eq-ok :
    {A : Type 0} (b : Bool) (x a : A) (r : Result IncludeError A)
    → (if b then ok x else r) ≡ ok a
    → ((b ≡ true) × (a ≡ x)) ⊎ (r ≡ ok a)
if-eq-ok true x a r h = inl (refl, cc)
if-eq-ok false x a r h = inr h

-- A relative path goes below one of the two directories.
relative_to-directory :
    (env : Environment) (is_user : Bool) (arg pattern : Str)
    → relative_to env is_user arg ≡ ok pattern
    → ((dir : Str) × (is_user ≡ true)
        × (env.home_dir ≡ some dir)
        × (pattern ≡ push (push dir (codes ".ssh")) arg))
      ⊎ ((dir : Str) × (is_user ≡ false)
          × (env.system_ssh_dir_path ≡ some dir)
          × (pattern ≡ push dir arg))
unfolding relative_to
relative_to-directory env true arg pattern h =
    let (dir, hd, hk) = >>=-eq-ok (ok_or no_home_dir env.home_dir) _ h in
    inl (dir, refl, ok_or-eq-ok no_home_dir env.home_dir dir hd, cc)
relative_to-directory env false arg pattern h =
    let (dir, hd, hk) = >>=-eq-ok (ok_or no_system_dir env.system_ssh_dir_path) _ h in
    inr (dir, refl, ok_or-eq-ok no_system_dir env.system_ssh_dir_path dir hd, cc)

rooted-Origin :
    (env : Environment) (is_user : Bool) (arg pattern : Str)
    → rooted env is_user arg ≡ ok pattern
    → Origin env is_user arg pattern
unfolding rooted
rooted-Origin env is_user arg pattern h =
    elim (if-eq-ok (starts_absolute arg) arg pattern (relative_to env is_user arg) h) [
      | inl (e, k) ↦ given e k
      | inr k ↦ elim (relative_to-directory env is_user arg pattern k) [
        | inl (dir, b, d, same) ↦ user_file dir b d same
        | inr (dir, b, d, same) ↦ system_file dir b d same
      ]
    ]

rooted-IsAbsolute :
    (env : Environment) (is_user : Bool) (path pattern : Str)
    → AllOf env.home_dir
    → AllOf env.system_ssh_dir_path
    → rooted env is_user path ≡ ok pattern
    → IsAbsolute pattern
unfolding rooted
rooted-IsAbsolute env is_user path pattern user system h =
    elim (if-eq-ok (starts_absolute path) path pattern (relative_to env is_user path) h) [
      | inl (e, same) ↦ rw same e
      | inr k ↦ elim (relative_to-directory env is_user path pattern k) [
        | inl (dir, b, d, same) ↦ rw same (
            push-IsAbsolute (push dir (codes ".ssh")) path
              (push-IsAbsolute dir (codes ".ssh") (rw d at user)))
        | inr (dir, b, d, same) ↦ rw same (push-IsAbsolute dir path (rw d at system))
      ]
    ]

expanded-Origin :
    (env : Environment) (is_user : Bool) (arg path pattern : Str)
    → expanded env is_user arg ≡ ok path
    → rooted env is_user path ≡ ok pattern
    → Origin env is_user arg pattern
unfolding expanded
expanded-Origin env true arg path pattern hp hr = elim (Bool-cases (starts_with_tilde arg)) [
  | inl e ↦ home path refl (rw e at hp) hr
  | inr e ↦
      let k = rw e at hp in
      let same : arg ≡ path = cc in rooted-Origin env true arg pattern (rw (← same) at hr)
]
expanded-Origin env false arg path pattern hp hr = elim (Bool-cases (starts_with_tilde arg)) [
  | inl e ↦ let k = rw e at hp in cc
  | inr e ↦
      let k = rw e at hp in
      let same : arg ≡ path = cc in rooted-Origin env false arg pattern (rw (← same) at hr)
]

-- How the files of a directive are found.
pub record Located (env : Environment) (arg : Str) (is_user : Bool) (files : List Str)
    : Type 0 where
  pub pattern : Str
  pub entries : List (Option Str)
  pub absolute : IsAbsolute pattern
  pub origin : Origin env is_user arg pattern
  pub searched : env.glob_with pattern ≡ some entries
  pub files_found : flatten entries ≡ files

-- Where the user's home and the directory of the system's files are absolute paths, the files that
-- an Include directive stands for are those that the glob finds for one absolute pattern, which the
-- directive of a system file takes from no home directory.
pub find_include_files-Located :
    (env : Environment) (arg : Str) (is_user : Bool) (files : List Str)
    → AllOf env.home_dir
    → AllOf env.system_ssh_dir_path
    → find_include_files env arg is_user ≡ ok files
    → Located env arg is_user files
unfolding find_include_files expanded
find_include_files-Located env arg is_user files user system h =
    let (path, hp, h1) = >>=-eq-ok (expanded env is_user arg) _ h in
    let (pattern, hr, h2) = >>=-eq-ok (rooted env is_user path) _ h1 in
    let (entries, he, h3) = >>=-eq-ok (ok_or bad_pattern (env.glob_with pattern)) _ h2 in
    record {
      pattern = pattern;
      entries = entries;
      absolute = rooted-IsAbsolute env is_user path pattern user system hr;
      origin = expanded-Origin env is_user arg path pattern hp hr;
      searched = ok_or-eq-ok bad_pattern (env.glob_with pattern) entries he;
      files_found = cc;
    }
