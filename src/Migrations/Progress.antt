-- ===== src/Migrations/Progress.antt =====
-- What a run of the migrations leaves, in front of the code: a relation between two schemas.
use at_app.Base.{
  All, ℕ, Bool, true, false, Option, some, List, [], ◌∷◌, ◌++◌, ◌≡◌, refl, ◌∙◌, arith, exists_where,
  exists_where-append, ==-refl, ◌==◌,
}
use at_app.Store.{Text}
use at_app.Migrations.Files.{Embedded, MigrationFile}
use at_app.Migrations.Run.{Schema, is_applied}

module _ {S : Type 0} (exec : Text → S → Option S) (fs : Embedded) where
  -- The schema behind one migration.
  abbrev pub with_version : Schema S → ℕ → S → Schema S
  with_version s version contents = record {
    contents = contents;
    applied = s.applied ++ version ∷ [];
  }

  -- The files whose version is not recorded are executed and recorded, in their order, up to some
  -- file: the last one, if the run is whole.
  pub data Migrates (whole : Bool) : List MigrationFile → Schema S → Schema S → Type 0 where
    finished : (s : Schema S) → Migrates whole [] s s
    stopped : (files : List MigrationFile) (s : Schema S) → whole ≡ false → Migrates whole files s s
    skipped :
        (f : MigrationFile) (files : List MigrationFile) (s t : Schema S)
        → is_applied f.version s.applied ≡ true
        → Migrates whole files s t
        → Migrates whole (f ∷ files) s t
    applies :
        (f : MigrationFile) (files : List MigrationFile) (s t : Schema S) (sql : Text)
        (contents : S)
        → is_applied f.version s.applied ≡ false
        → fs.read f.name ≡ some sql
        → exec sql s.contents ≡ some contents
        → Migrates whole files (with_version s f.version contents) t
        → Migrates whole (f ∷ files) s t

  is_applied-append :
      (v : ℕ) (vs : List ℕ) (u : ℕ) → is_applied v vs ≡ true → is_applied v (vs ++ u ∷ []) ≡ true
  unfolding is_applied exists_where
  is_applied-append v vs u h = exists_where-append (λ x. x == v) vs (u ∷ []) ∙ ground (arith, h)

  is_applied-last : (v : ℕ) (vs : List ℕ) → is_applied v (vs ++ v ∷ []) ≡ true
  unfolding is_applied exists_where
  is_applied-last v vs = exists_where-append (λ x. x == v) vs (v ∷ []) ∙ ground (arith, ==-refl v)

  -- A recorded version stays recorded.
  pub Migrates-applied :
      {whole : Bool} {files : List MigrationFile} {s t : Schema S} (v : ℕ)
      → Migrates whole files s t
      → is_applied v s.applied ≡ true
      → is_applied v t.applied ≡ true
  Migrates-applied v (finished s) h = h
  Migrates-applied v (stopped files s e) h = h
  Migrates-applied v (skipped f files s t a m) h = Migrates-applied v m h
  Migrates-applied v (applies f files s t sql contents a r x m) h =
      Migrates-applied v m (is_applied-append v s.applied f.version h)

  -- A run that stopped and a whole run behind it are one whole run.
  pub Migrates-resumed :
      {files : List MigrationFile} {s t u : Schema S}
      → Migrates false files s t
      → Migrates true files t u
      → Migrates true files s u
  Migrates-resumed (finished s) m = m
  Migrates-resumed (stopped files s e) m = m
  Migrates-resumed (skipped f files s t a m) (skipped f' files' t' u b n) =
      skipped f files s u a (Migrates-resumed m n)
  Migrates-resumed (skipped f files s t a m) (applies f' files' t' u sql contents b r x n) =
      let k = Migrates-applied f.version m a in cc
  Migrates-resumed (skipped f files s t a m) (stopped files' t' e) = cc
  Migrates-resumed (applies f files s t sql contents a r x m) (skipped f' files' t' u b n) =
      applies f files s u sql contents a r x (Migrates-resumed m n)
  Migrates-resumed (applies f files s t sql contents a r x m)
        (applies f' files' t' u sql' contents' b r' x' n) =
      let k = Migrates-applied f.version m (is_applied-last f.version s.applied) in cc
  Migrates-resumed (applies f files s t sql contents a r x m) (stopped files' t' e) = cc

  -- Two whole runs from one schema end in one schema.
  pub Migrates-unique :
      {files : List MigrationFile} {s t u : Schema S}
      → Migrates true files s t
      → Migrates true files s u
      → t ≡ u
  Migrates-unique (finished s) (finished s') = refl
  Migrates-unique (finished s) (stopped files s' e) = cc
  Migrates-unique (stopped files s e) m = cc
  Migrates-unique (skipped f files s t a m) (skipped f' files' s' u b n) = Migrates-unique m n
  Migrates-unique (skipped f files s t a m) (applies f' files' s' u sql contents b r x n) = cc
  Migrates-unique (skipped f files s t a m) (stopped files' s' e) = cc
  Migrates-unique (applies f files s t sql contents a r x m) (skipped f' files' s' u b n) = cc
  Migrates-unique (applies f files s t sql contents a r x m) (stopped files' s' e) = cc
  Migrates-unique (applies f files s t sql contents a r x m)
        (applies f' files' s' u sql' contents' b r' x' n) =
      let e : contents ≡ contents' = cc in Migrates-unique m (rw e n)

  -- A whole run leaves every version recorded.
  pub Migrates-All :
      {files : List MigrationFile} {s t : Schema S}
      → Migrates true files s t
      → All (λ f. is_applied f.version t.applied ≡ true) files
  Migrates-All (finished s) = tt
  Migrates-All (stopped files s e) = cc
  Migrates-All (skipped f files s t a m) = (Migrates-applied f.version m a, Migrates-All m)
  Migrates-All (applies f files s t sql contents a r x m) =
      (Migrates-applied f.version m (is_applied-last f.version s.applied), Migrates-All m)
