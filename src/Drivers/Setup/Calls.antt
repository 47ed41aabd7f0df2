-- ===== src/Drivers/Setup/Calls.antt =====
-- Calls of the driver in the setup (pkg/kine/drivers/sqlite/sqlite.go): what they leave of the schema.
use k8s_dqlite.Prelude.{◌≡◌, refl, ap, ◌∙◌, Option, none, some, List, [], ◌∷◌}
use k8s_dqlite.Results.{Error, Result, ok, err}
use k8s_dqlite.Drivers.Setup.{Schema, Database, Work, next, after, call, call_over, exec}

-- What holds of the value and of the schema after a call that does not fail.
abbrev pub Ensures : {A : Type 0} → (A → Schema → Type 0) → Result A × Database → Type 0
Ensures Q (ok a, db) = Q a db.schema
Ensures Q (err e, db) = Unit

pub call-Ensures :
    {A : Type 0} (f : Schema → A × Schema) (db : Database)
    → Ensures (λ a s. (a ≡ (f db.schema).0) × (s ≡ (f db.schema).1)) (call f db)
unfolding call
call-Ensures f db = by_slot db.broken
  where
    by_slot :
        (b : List (Option Error))
        → Ensures (λ a s. (a ≡ (f db.schema).0) × (s ≡ (f db.schema).1)) (call_over b f db)
    by_slot [] = (refl, refl)
    by_slot (none ∷ rest) = (refl, refl)
    by_slot (some e ∷ rest) = tt

pub weaken :
    {A : Type 0} {P Q : A → Schema → Type 0} (out : Result A × Database)
    → ((a : A) (s : Schema) → P a s → Q a s)
    → Ensures P out
    → Ensures Q out
weaken (ok a, db) h p = h a db.schema p
weaken (err e, db) h p = tt

pub after-Ensures :
    {A B : Type 0} (P : A → Schema → Type 0) (Q : B → Schema → Type 0) (m : Work A) (f : A → Work B)
    (db : Database)
    → Ensures P (m db)
    → ((a : A) (db' : Database) → P a db'.schema → Ensures Q (f a db'))
    → Ensures Q (after m f db)
after-Ensures {A = A} P Q m f db p h = let (r, db') = m db in by_result r db' p
  where
    by_result : (r : Result A) (db' : Database) → Ensures P (r, db') → Ensures Q (next r f db')
    by_result (ok a) db' p = h a db' p
    by_result (err e) db' p = tt

pub exec-Ensures :
    (f : Schema → Schema) (db : Database) (s : Schema)
    → db.schema ≡ s
    → Ensures (λ (u : Unit {0}) s'. s' ≡ f s) (exec f db)
unfolding exec
exec-Ensures f db s e =
    weaken (call (λ schema. (tt, f schema)) db) (λ u s' h. h.1 ∙ ap f e)
      (call-Ensures (λ schema. (tt, f schema)) db)

-- An error leaves the schema as it was.
abbrev pub Restores : {A : Type 0} → Schema → Result A × Database → Type 0
Restores s (ok a, db) = Unit
Restores s (err e, db) = db.schema ≡ s

module _ (s : Schema) where
  pub call-Restores :
      {A : Type 0} (f : Schema → A × Schema) (db : Database)
      → db.schema ≡ s
      → Restores s (call f db)
  unfolding call
  call-Restores f db e = by_slot db.broken
    where
      by_slot : (b : List (Option Error)) → Restores s (call_over b f db)
      by_slot [] = tt
      by_slot (none ∷ rest) = tt
      by_slot (some x ∷ rest) = e

  pub after-Restores :
      {A B : Type 0} (P : A → Schema → Type 0) (m : Work A) (f : A → Work B) (db : Database)
      → Restores s (m db)
      → Ensures P (m db)
      → ((a : A) (db' : Database) → P a db'.schema → Restores s (f a db'))
      → Restores s (after m f db)
  after-Restores {A = A} P m f db r p h = let (x, db') = m db in by_result x db' r p
    where
      by_result :
          (x : Result A) (db' : Database)
          → Restores s (x, db')
          → Ensures P (x, db')
          → Restores s (next x f db')
      by_result (ok a) db' r p = h a db' p
      by_result (err e) db' r p = r
