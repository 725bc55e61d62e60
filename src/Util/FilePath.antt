-- ===== src/Util/FilePath.antt =====
-- The functions of Rust's `Path` and `PathBuf` that the program calls, for the separator of Unix. A
-- path is text; its components are what stands between separators, without `.` except in front.
use qcp.Prelude.{
  ℕ, Bool, true, false, ◌&&◌, ◌||◌, Option, none, some, [], ◌∷◌, ◌++◌, reverse, ◌==◌, if◌then◌else◌,
}
use qcp.Prelude.Text.{Str, codes, str_eq}

abbrev pub starts_absolute : Str → Bool
starts_absolute [] = false
starts_absolute (c ∷ s) = c == b'/'

-- The reversed text without the separators and `.` components at its end.
trim : Str → Str
trim [] = []
trim (c ∷ []) = if c == b'/' then [] else c ∷ []
trim (c ∷ d ∷ s) =
    let shorter = trim (d ∷ s) in
    let skipped = trim s in
    if c == b'/' then shorter else if c == b'.' && d == b'/' then skipped else c ∷ d ∷ s

-- The reversed text from its last separator on.
drop_component : Str → Str
drop_component [] = []
drop_component (c ∷ s) = let later = drop_component s in if c == b'/' then c ∷ s else later

last_component : Str → Str
last_component [] = []
last_component (c ∷ s) = if c == b'/' then [] else c ∷ last_component s

abbrev is_empty : Str → Bool
is_empty [] = true
is_empty (c ∷ s) = false

-- `PathBuf::pop`: a path that is empty or the root stays.
unfoldable pub pop : Str → Str
unfolding trim drop_component
pop path =
    let components = trim (reverse path) in
    let parent = trim (drop_component components) in
    if is_empty components
    then path
    else if is_empty parent && starts_absolute path
    then codes "/"
    else reverse parent

unfoldable pub file_name : Str → Option Str
unfolding trim last_component
file_name path =
    let name = reverse (last_component (trim (reverse path))) in
    if is_empty name || str_eq name (codes ".") || str_eq name (codes "..") then none else some name

unfoldable pub ends_with : ℕ → Str → Bool
ends_with c [] = false
ends_with c (d ∷ []) = d == c
ends_with c (d ∷ e ∷ s) = ends_with c (e ∷ s)

-- `PathBuf::push`: an absolute path replaces what is there.
unfoldable pub push : Str → Str → Str
unfolding ends_with
push path added =
    if starts_absolute added
    then added
    else if is_empty path || ends_with b'/' path
    then path ++ added
    else path ++ b'/' ∷ added
