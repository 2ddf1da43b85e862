-- ===== src/Migrations/Sorted.antt =====
-- The order in which `loadMigrationFiles` (server/db/migrate.go) returns the files.
use at_app.Base.{
  ℕ, none, some, List, [], ◌∷◌, ◌≡◌, refl, subst, ◌≤◌, ltb, All, All-map_of, arith, Bool-cases,
  Option-cases, inl, inr,
}
use mathlib.Core.List.{Perm}
use mathlib.Core.List.Perm
use at_app.Migrations.Files.{
  DirEntry, Embedded, MigrationFile, insert_file, sort_files, collect_files, load_migration_files,
}

-- Every file has at most the version of each one behind it.
pub IsSorted : List MigrationFile → Type 0
IsSorted [] = Unit
IsSorted (f ∷ fs) = All (λ g. f.version ≤ g.version) fs × IsSorted fs

insert_file-All :
    (P : MigrationFile → Type 0) (f : MigrationFile) (gs : List MigrationFile)
    → P f
    → All P gs
    → All P (insert_file f gs)
unfolding insert_file
insert_file-All P f [] p h = (p, tt)
insert_file-All P f (g ∷ gs) p (q, h) = elim (Bool-cases (ltb g.version f.version)) [
  | inl e ↦ rw e (q, insert_file-All P f gs p h)
  | inr e ↦ rw e (p, (q, h))
]

insert_file-IsSorted :
    (f : MigrationFile) (gs : List MigrationFile) → IsSorted gs → IsSorted (insert_file f gs)
unfolding insert_file IsSorted
insert_file-IsSorted f [] h = (tt, tt)
insert_file-IsSorted f (g ∷ gs) (below, h) = elim (Bool-cases (ltb g.version f.version)) [
  | inl e ↦ rw e (
    insert_file-All (λ x. g.version ≤ x.version) f gs (ground (arith, e)) below,
    insert_file-IsSorted f gs h,
  )
  | inr e ↦
      let le : f.version ≤ g.version = ground (arith, e) in
      rw e
        ((le, All-map_of _ _ (λ x (k : g.version ≤ x.version). omega arith) gs below), (below, h))
]

sort_files-IsSorted : (fs : List MigrationFile) → IsSorted (sort_files fs)
unfolding sort_files IsSorted
sort_files-IsSorted [] = tt
sort_files-IsSorted (f ∷ fs) = insert_file-IsSorted f (sort_files fs) (sort_files-IsSorted fs)

insert_file-Perm : (f : MigrationFile) (gs : List MigrationFile) → Perm (insert_file f gs) (f ∷ gs)
unfolding insert_file
insert_file-Perm f [] = Perm.rfl
insert_file-Perm f (g ∷ gs) = elim (Bool-cases (ltb g.version f.version)) [
  | inl e ↦ rw e (Perm.trans (Perm.cons' refl (insert_file-Perm f gs)) (Perm.swap _ _ _))
  | inr e ↦ rw e Perm.rfl
]

sort_files-Perm : (fs : List MigrationFile) → Perm (sort_files fs) fs
unfolding sort_files
sort_files-Perm [] = Perm.rfl
sort_files-Perm (f ∷ fs) =
    Perm.trans (insert_file-Perm f (sort_files fs)) (Perm.cons' refl (sort_files-Perm fs))

-- The files are those of the directory with that suffix, sorted by version.
pub record Loaded (fs : Embedded) (suffix : List ℕ) (files : List MigrationFile) : Type 0 where
  pub sorted : IsSorted files
  pub entries : List DirEntry
  pub directory : fs.entries ≡ some entries
  pub found : List MigrationFile
  pub collected : collect_files suffix entries ≡ some found
  pub same_files : Perm files found

pub load_migration_files-Loaded :
    (fs : Embedded) (suffix : List ℕ) (files : List MigrationFile)
    → load_migration_files fs suffix ≡ some files
    → Loaded fs suffix files
unfolding load_migration_files
load_migration_files-Loaded fs suffix files h = elim (Option-cases fs.entries) [
  | inl n ↦ let k = rw n at h in cc
  | inr (es, e) ↦ elim (Option-cases (collect_files suffix es)) [
    | inl n ↦ let k : none ≡ some files = ground (arith, h, e, n) in cc
    | inr (found, c) ↦
        let q : sort_files found ≡ files = ground (arith, h, e, c) in
        record {
          sorted = subst IsSorted q (sort_files-IsSorted found);
          entries = es;
          directory = e;
          found = found;
          collected = c;
          same_files = subst (λ x. Perm x found) q (sort_files-Perm found);
        }
  ]
]
