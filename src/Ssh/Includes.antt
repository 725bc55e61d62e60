-- ===== src/Ssh/Includes.antt =====
-- qcp/src/config/ssh/includes.rs: the files of an Include directive, for the separator of Unix. The
-- home directories, the directory of the system's configuration and the glob crate are parameters.
pub mod Absolute
use qcp.Prelude.{
  Bool, true, false, not, Option, none, some, List, [], ◌∷◌, ◌==◌, if◌then◌else◌, Result, ok, err,
  ensure, ◌>>=◌, ◌>>◌,
}
use qcp.Prelude.Text.{Str, codes, split_once}
use qcp.Util.FilePath.{starts_absolute, push}

-- What the system knows; `glob_with` is `none` for a bad pattern, and its entries may be errors.
pub record Environment : Type 0 where
  pub my_home : Option Str
  pub home : Str → Option Str
  pub home_dir : Option Str
  pub system_ssh_dir_path : Option Str
  pub glob_with : Str → Option (List (Option Str))

pub data IncludeError : Type 0 where
  tilde_in_system_file no_home no_other_home no_home_dir no_system_dir : IncludeError
  bad_pattern : IncludeError

abbrev pub ok_or : {A : Type 0} → IncludeError → Option A → Result IncludeError A
ok_or e none = err e
ok_or e (some a) = ok a

abbrev pub starts_with_tilde : Str → Bool
starts_with_tilde [] = false
starts_with_tilde (c ∷ s) = c == b'~'

-- `~someuser`, with or without a path behind.
unfoldable pub other_home : Environment → Str → Option (Str × Str) → Result IncludeError Str
unfolding push
other_home env s none = ok_or no_other_home (env.home s)
other_home env s (some (username, path)) =
    ok_or no_other_home (env.home username) >>= λ pb. ok (push pb path)

-- The path behind `~`.
unfoldable pub expand_tilde : Environment → Str → Result IncludeError Str
unfolding push other_home split_once
expand_tilde env [] = ok_or no_home env.my_home
expand_tilde env (c ∷ s) =
    if c == b'/'
    then (ok_or no_home env.my_home >>= λ home. ok (push home s))
    else other_home env (c ∷ s) (split_once b'/' (c ∷ s))

unfoldable pub expand_home_directory : Environment → Str → Result IncludeError Str
unfolding expand_tilde
expand_home_directory env [] = ok []
expand_home_directory env (c ∷ s) = if c == b'~' then expand_tilde env s else ok (c ∷ s)

-- 1. Expand ~
unfoldable pub expanded : Environment → Bool → Str → Result IncludeError Str
unfolding expand_home_directory
expanded env is_user arg =
    if starts_with_tilde arg
    then (ensure is_user tilde_in_system_file >> expand_home_directory env arg)
    else ok arg

-- 2. Expand relative paths to the relevant directory
unfoldable pub relative_to : Environment → Bool → Str → Result IncludeError Str
unfolding push
relative_to env is_user path =
    if is_user
    then (ok_or no_home_dir env.home_dir >>= λ buf. ok (push (push buf (codes ".ssh")) path))
    else (ok_or no_system_dir env.system_ssh_dir_path >>= λ buf. ok (push buf path))

unfoldable pub rooted : Environment → Bool → Str → Result IncludeError Str
unfolding relative_to
rooted env is_user path = if starts_absolute path then ok path else relative_to env is_user path

-- The entries that are no errors.
abbrev pub flatten : List (Option Str) → List Str
flatten [] = []
flatten (none ∷ entries) = flatten entries
flatten (some s ∷ entries) = s ∷ flatten entries

unfoldable pub find_include_files : Environment → Str → Bool → Result IncludeError (List Str)
unfolding expanded rooted
find_include_files env arg is_user = expanded env is_user arg >>= λ path.
    rooted env is_user path >>= λ pattern.
    ok_or bad_pattern (env.glob_with pattern) >>= λ entries. ok (flatten entries)
