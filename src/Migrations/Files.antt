-- ===== src/Migrations/Files.antt =====
-- `loadMigrationFiles` (server/db/migrate.go). A file name is the list of its bytes.
use at_app.Base.{
  ℕ, ◌+◌, ◌-◌, ◌*◌, ◌^◌, Bool, false, not, ◌&&◌, ◌||◌, Option, none, some, List, [], ◌∷◌, ◌==◌, ltb,
  leb, if◌then◌else◌, same_bytes,
}
use at_app.Store.{Text}

abbrev pub FileName : Type 0
FileName = List ℕ

pub record DirEntry : Type 0 where
  pub name : FileName
  pub is_dir : Bool

-- The directory that the binary embeds: `ReadDir`, and the text that `ReadFile` reads.
pub record Embedded : Type 0 where
  pub entries : Option (List DirEntry)
  pub read : FileName → Option Text

pub record MigrationFile : Type 0 where
  pub version : ℕ
  pub name : FileName

abbrev pub is_digit : ℕ → Bool
is_digit b = leb 48 b && leb b 57

-- The longest prefix of digits, and the rest.
unfoldable pub span_digits : List ℕ → List ℕ × List ℕ
span_digits [] = ([], [])
span_digits (b ∷ bs) =
    let (ds, rest) = span_digits bs in if is_digit b then (b ∷ ds, rest) else ([], b ∷ bs)

-- `.*` and the suffix: no line break in front of it.
unfoldable pub any_then : List ℕ → List ℕ → Bool
unfolding same_bytes
any_then suffix [] = same_bytes suffix []
any_then suffix (b ∷ bs) =
    let rest = any_then suffix bs in same_bytes suffix (b ∷ bs) || (not (b == 10) && rest)

-- What follows the digits: `_`, anything, and the suffix.
unfoldable pub tail_matches : List ℕ → List ℕ → Bool
unfolding any_then
tail_matches suffix [] = false
tail_matches suffix (b ∷ bs) = b == 95 && any_then suffix bs

-- `^(\d+)_.*<suffix>$`, and its submatch
unfoldable pub submatch : List ℕ → FileName → Option (List ℕ)
unfolding span_digits tail_matches same_bytes
submatch suffix name =
    let (ds, rest) = span_digits name in
    if not (same_bytes ds []) && tail_matches suffix rest then some ds else none

-- `.up.sql` and `.down.sql`
abbrev pub up_suffix : List ℕ
up_suffix = 46 ∷ 117 ∷ 112 ∷ 46 ∷ 115 ∷ 113 ∷ 108 ∷ []

abbrev pub down_suffix : List ℕ
down_suffix = 46 ∷ 100 ∷ 111 ∷ 119 ∷ 110 ∷ 46 ∷ 115 ∷ 113 ∷ 108 ∷ []

unfoldable pub digits_value : ℕ → List ℕ → ℕ
digits_value n [] = n
digits_value n (b ∷ bs) = digits_value (10 * n + (b - 48)) bs

-- strconv.Atoi on digits: out of the range of an `int` is an error.
unfoldable pub atoi : List ℕ → Option ℕ
unfolding digits_value
atoi ds = if ltb (digits_value 0 ds) (2 ^ 63) then some (digits_value 0 ds) else none

-- sort.Slice by version
unfoldable pub insert_file : MigrationFile → List MigrationFile → List MigrationFile
insert_file f [] = f ∷ []
insert_file f (g ∷ gs) =
    let rest = insert_file f gs in if ltb g.version f.version then g ∷ rest else f ∷ g ∷ gs

unfoldable pub sort_files : List MigrationFile → List MigrationFile
unfolding insert_file
sort_files [] = []
sort_files (f ∷ fs) = insert_file f (sort_files fs)

-- The file in front, if the entry is one.
unfoldable pub add_file :
    List ℕ → DirEntry → Option (List MigrationFile) → Option (List MigrationFile)
unfolding submatch atoi
add_file suffix e rest = if e.is_dir then rest else elim (submatch suffix e.name) [
  | none ↦ rest
  | some ds ↦ elim (atoi ds) [
    | none ↦ none
    | some v ↦ elim rest [
      | none ↦ none
      | some fs ↦ some (record { version = v; name = e.name } ∷ fs)
    ]
  ]
]

unfoldable pub collect_files : List ℕ → List DirEntry → Option (List MigrationFile)
unfolding add_file
collect_files suffix [] = some []
collect_files suffix (e ∷ es) = add_file suffix e (collect_files suffix es)

-- `none` is the error of an unreadable directory or of a version that is no `int`.
unfoldable pub load_migration_files : Embedded → List ℕ → Option (List MigrationFile)
unfolding collect_files sort_files
load_migration_files fs suffix = elim fs.entries [
  | none ↦ none
  | some es ↦ elim (collect_files suffix es) [ none ↦ none | some found ↦ some (sort_files found) ]
]
