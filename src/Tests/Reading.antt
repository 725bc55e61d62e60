-- ===== src/Tests/Reading.antt =====
-- The reader of ssh_config files at concrete inputs.
use qcp.Ssh.Includes.{Environment, tilde_in_system_file, find_include_files}
use qcp.Ssh.Includes.Absolute.{Located, find_include_files-Located}
use qcp.Prelude.{
  if◌then◌else◌, ◌≡◌, ◌≢◌, refl, true, Option, some, List, [], ◌∷◌, ok, err, none, false,
}
use qcp.Prelude.Text.{Str, codes, str_eq}
use qcp.Ssh.Lines.{out_of_fuel, split_args}
use qcp.Ssh.Lines.Total.{split_args-ne-out_of_fuel}
use qcp.Ssh.Lines.Quoting.{write_args, split_args-write_args}
use qcp.Ssh.Matching.{evaluate_host_match}
use qcp.Ssh.Keywords.{canonical, to_configuration_field}
use qcp.Ssh.Files.{Files, Data, get, parse_line, parse_file_for, include_depth_limit}
use qcp.Ssh.Files.Flat.{Item, flat_file}
use qcp.Ssh.Files.Lookup.{first, applies, parse_file_for-first}

split_args-ne-out_of_fuel_example : split_args (codes "a \"b c\" # d") ≢ err out_of_fuel
split_args-ne-out_of_fuel_example = split_args-ne-out_of_fuel (codes "a \"b c\" # d")

abbrev odd_arguments : List Str
odd_arguments = codes "a \"quoted\" # word" ∷ [] ∷ codes "\\" ∷ []

split_args-write_args_example : split_args (write_args odd_arguments) ≡ ok odd_arguments
split_args-write_args_example = split_args-write_args odd_arguments

spelt : canonical (codes "Initial-CongestionWindow") ≡ canonical (codes "initial_congestion_window")
unfolding canonical
spelt = refl

-- One file that includes another. A pattern matches its own text.
abbrev disk : Files
disk = record {
  matches = str_eq;
  is_user = true;
  read_file = λ path. some (some (codes "rx 5") ∷ some (codes "rtt 40") ∷ []);
  find_include_files = λ arg user. some (arg ∷ []);
}

abbrev main_lines : List (Option Str)
main_lines =
    some (codes "tx 7")
    ∷ some (codes "Host other")
    ∷ some (codes "rtt 1")
    ∷ some (codes "Host here")
    ∷ some (codes "Include more")
    ∷ some (codes "RX 6")
    ∷ []

abbrev outcome : Data
outcome =
    (codes "tx", record { source = []; line_number = 1; args = codes "7" ∷ [] })
    ∷ (codes "rx", record { source = codes "more"; line_number = 1; args = codes "5" ∷ [] })
    ∷ (codes "rtt", record { source = codes "more"; line_number = 2; args = codes "40" ∷ [] })
    ∷ []

read : parse_file_for disk (some (codes "here")) [] main_lines ≡ ok outcome
unfolding parse_file_for parse_line split_args evaluate_host_match to_configuration_field
read = refl

parse_file_for-first_example :
    (items : List Item) × (flat_file disk include_depth_limit [] main_lines ≡ ok items)
    × ((key : Str) → get key outcome ≡ first (applies disk (some (codes "here"))) key true items)
parse_file_for-first_example =
    parse_file_for-first disk (some (codes "here")) [] main_lines outcome read

-- A user with two included files, one of which cannot be read.
abbrev user_env : Environment
user_env = record {
  my_home = some (codes "/h/me");
  home = λ name. none;
  home_dir = some (codes "/h/me");
  system_ssh_dir_path = some (codes "/etc/ssh");
  glob_with = λ pattern. some (
      if str_eq pattern (codes "/h/me/.ssh/conf.d/*")
      then some (codes "/h/me/.ssh/conf.d/a") ∷ none ∷ []
      else []);
}

included :
    find_include_files user_env (codes "conf.d/*") true ≡ ok (codes "/h/me/.ssh/conf.d/a" ∷ [])
unfolding find_include_files
included = refl

find_include_files-Located_example :
    Located user_env (codes "conf.d/*") true (codes "/h/me/.ssh/conf.d/a" ∷ [])
find_include_files-Located_example =
    find_include_files-Located user_env (codes "conf.d/*") true (codes "/h/me/.ssh/conf.d/a" ∷ [])
      refl refl included

system_tilde : find_include_files user_env (codes "~/x") false ≡ err tilde_in_system_file
unfolding find_include_files
system_tilde = refl
