-- ===== src/Tests/Disk.antt =====
-- A small file system for the runs: a list of nodes, whose places are the descriptors. A write fails
-- once a file holds as many bytes as the capacity says.
use qcp.Prelude.{
  ℕ, zero, suc, true, Option, none, some, List, [], ◌∷◌, ◌++◌, ltb, if◌then◌else◌, get_or, length,
  Result, ok, err, ◌≡◌, refl, Bool-cases, Result-cases, inl, inr,
}
use qcp.Prelude.Text.{Str, str_eq, str_eq_refl}
use qcp.Session.Files.{FileKind, regular, directory, FsMetadata, FileSystem, is_dir}
use qcp.Session.Messages.{IoError, not_found, storage_full}

pub record Node : Type 0 where
  pub path : Str
  pub meta : FsMetadata
  pub bytes : List ℕ

abbrev pub Disk : Type 0
Disk = List Node

abbrev pub missing : IoError
missing = record { kind = not_found; text = [] }

abbrev pub full : IoError
full = record { kind = storage_full; text = [] }

abbrev pub find : Str → Disk → Option ℕ
find path [] = none
find path (n ∷ d) =
    let later = find path d in
    if str_eq n.path path then some 0 else elim later [ none ↦ none | some i ↦ some (suc i) ]

abbrev pub node : ℕ → Disk → Result IoError Node
node i [] = err missing
node zero (n ∷ d) = ok n
node (suc i) (n ∷ d) = node i d

abbrev pub change : (Node → Node) → ℕ → Disk → Disk
change f i [] = []
change f zero (n ∷ d) = f n ∷ d
change f (suc i) (n ∷ d) = n ∷ change f i d

abbrev pub descriptor : Option ℕ → Result IoError ℕ
descriptor none = err missing
descriptor (some i) = ok i

abbrev pub meta_of : Result IoError Node → Result IoError FsMetadata
meta_of (ok n) = ok n.meta
meta_of (err e) = err e

abbrev pub bytes_of : Result IoError Node → List ℕ
bytes_of (ok n) = n.bytes
bytes_of (err e) = []

abbrev pub fresh : FileKind → Str → ℕ → Node
fresh kind path mode = record {
  path = path;
  meta = record { kind = kind; len = 0; permissions = mode; accessed = none; modified = none };
  bytes = [];
}

abbrev pub create_at : Str → ℕ → Option ℕ → Disk → Result IoError (ℕ × Disk)
create_at path mode none d = ok (length d, d ++ fresh regular path mode ∷ [])
create_at path mode (some i) d = ok (i, change (λ n. record n { bytes = [] }) i d)

abbrev pub write_at : ℕ → ℕ → Result IoError Node → ℕ → Disk → Result IoError Disk
write_at capacity i (err e) b d = err e
write_at capacity i (ok n) b d =
    if ltb (length n.bytes) capacity
    then ok (change (λ n'. record n' { bytes = n'.bytes ++ b ∷ [] }) i d)
    else err full

abbrev pub chmod_at : ℕ → Option ℕ → Disk → Result IoError Disk
chmod_at m none d = err missing
chmod_at m (some i) d =
    ok (change (λ n. record n { meta = record (n.meta) { permissions = m } }) i d)

abbrev pub stat : Str → Disk → Result IoError FsMetadata
stat path [] = err missing
stat path (n ∷ d) = let later = stat path d in if str_eq n.path path then ok n.meta else later

abbrev pub make : Str → Result IoError FsMetadata → Disk → Result IoError Disk
make path (ok m) d = err full
make path (err e) d = ok (d ++ fresh directory path 493 ∷ [])

stat-append :
    (path : Str) (d : Disk) (e : IoError)
    → stat path d ≡ err e
    → stat path (d ++ fresh directory path 493 ∷ []) ≡ ok (fresh directory path 493).meta
stat-append path [] e h = rw (str_eq_refl path) refl
stat-append path (n ∷ d) e h = elim (Bool-cases (str_eq n.path path)) [
  | inl here ↦ let k = rw here at h in cc
  | inr later ↦ rw later (stat-append path d e (rw later at h))
]

-- A directory that is created is there.
pub make-stat :
    (path : Str) (d d' : Disk)
    → make path (stat path d) d ≡ ok d'
    → (m : FsMetadata) × (stat path d' ≡ ok m) × (is_dir m ≡ true)
make-stat path d d' h = elim (Result-cases (stat path d)) [
  | inl (m, e) ↦ let k = rw e at h in cc
  | inr (x, e) ↦
      let k = rw e at h in
      let same : d ++ fresh directory path 493 ∷ [] ≡ d' = cc in
      ((fresh directory path 493).meta, rw (← same) (stat-append path d x e), refl)
]

abbrev pub disk : ℕ → FileSystem Disk
disk capacity = record {
  metadata = λ path d. stat path d;
  open_file = λ path d. descriptor (find path d);
  fstat = λ i d. meta_of (node i d);
  copy = λ i d. record { sent = bytes_of (node i d); failure = none };
  umask = 18;
  create = λ path mode d. create_at path (get_or mode 438) (find path d) d;
  write = λ i b d. write_at capacity i (node i d) b d;
  set_times = λ i a m d.
      ok (change (λ n. record n { meta = record (n.meta) { accessed = a; modified = m } }) i d);
  fchmod = λ i m d. chmod_at m (some i) d;
  chmod = λ path m d. chmod_at m (find path d) d;
  create_dir = λ path d. make path (stat path d) d;
}
