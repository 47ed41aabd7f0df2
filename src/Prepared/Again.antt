-- ===== src/Prepared/Again.antt =====
-- A query is prepared once (pkg/kine/prepared/db.go).
use k8s_dqlite.Prelude.{
  ◌≡◌, refl, sym, ap, ◌∙◌, Bool, true, false, Option, none, some, List, [], ◌∷◌, Bool-cases, inl,
  inr,
}
use k8s_dqlite.Bytes.{Bytes, same}
use k8s_dqlite.Bytes.Order.{same_refl, same→eq}
use k8s_dqlite.Results.{Result, ok, err}
use k8s_dqlite.Prepared.{Sql, Db, lookup, stored, prepare_missing, prepare_over, prepare}

module _ {S T A R X : Type 0} (sql : Sql S T A R X) where
  -- The query has its statement in the cache.
  abbrev pub Caches : Bytes → T → Db T → Type 0
  Caches query stmt db = lookup query db.store ≡ some stmt

  missing-Caches :
      (query : Bytes) (stmt : T) (db : Db T) (s : S) (b : Bool)
      → (prepare_missing sql query b (db, s)).0 ≡ ok stmt
      → Caches query stmt (prepare_missing sql query b (db, s)).1.0
  unfolding lookup
  missing-Caches query stmt db s false h = absurd (cc (h))
  missing-Caches query stmt db s true h =
      let (r, s') = sql.prepare_context query s in by_result r s' h
    where
      by_result :
          (r : Result T) (s' : S)
          → (stored sql query db (r, s')).0 ≡ ok stmt
          → Caches query stmt (stored sql query db (r, s')).1.0
      by_result (ok x) s' h = let g : x ≡ stmt = cc (h) in rw (same_refl query) (ap Option.some g)
      by_result (err e) s' h = absurd (cc (h))

  prepare-Caches :
      (query : Bytes) (stmt : T) (db : Db T) (s : S)
      → (prepare sql query (db, s)).0 ≡ ok stmt
      → Caches query stmt (prepare sql query (db, s)).1.0
  unfolding prepare
  prepare-Caches query stmt db s h = by_found (lookup query db.store) refl h
    where
      by_found :
          (o : Option T)
          → lookup query db.store ≡ o
          → (prepare_over sql query o (db, s)).0 ≡ ok stmt
          → Caches query stmt (prepare_over sql query o (db, s)).1.0
      by_found (some x) e h = e ∙ ap Option.some (let g : x ≡ stmt = cc (h) in g)
      by_found none e h = missing-Caches query stmt db s db.underlying h

  -- A cached query stays cached, with the same statement, when another one is prepared.
  stored-Caches :
      (query other : Bytes) (stmt : T) (db : Db T) (out : Result T × S)
      → same query other ≡ false
      → Caches query stmt db
      → Caches query stmt (stored sql other db out).1.0
  unfolding lookup
  stored-Caches query other stmt db (ok x, s') n h = rw n h
  stored-Caches query other stmt db (err e, s') n h = h

  over-Caches :
      (query other : Bytes) (stmt : T) (o : Option T) (db : Db T) (s : S)
      → (o ≡ none → same query other ≡ false)
      → Caches query stmt db
      → Caches query stmt (prepare_over sql other o (db, s)).1.0
  over-Caches query other stmt (some x) db s n h = h
  over-Caches query other stmt none db s n h = by_open db.underlying
    where
      by_open : (b : Bool) → Caches query stmt (prepare_missing sql other b (db, s)).1.0
      by_open false = h
      by_open true = stored-Caches query other stmt db (sql.prepare_context other s) (n refl) h

  keeps-Caches :
      (query other : Bytes) (stmt : T) (db : Db T) (s : S)
      → Caches query stmt db
      → Caches query stmt (prepare sql other (db, s)).1.0
  unfolding prepare
  keeps-Caches query other stmt db s h =
      over-Caches query other stmt (lookup other db.store) db s apart h
    where
      apart : lookup other db.store ≡ none → same query other ≡ false
      apart n = elim (Bool-cases (same query other)) [
        | inl t ↦ absurd (
            let g : lookup other db.store ≡ some stmt =
              ap (λ (q : Bytes). lookup q db.store) (sym (same→eq query other t)) ∙ h in
            cc (n, g))
        | inr f ↦ f
      ]

  -- The queries, prepared in turn.
  abbrev pub prepare_all : List Bytes → Db T × S → Db T × S
  prepare_all [] st = st
  prepare_all (query ∷ queries) st = prepare_all queries (prepare sql query st).1

  all-Caches :
      (queries : List Bytes) (query : Bytes) (stmt : T) (st : Db T × S)
      → Caches query stmt st.0
      → Caches query stmt (prepare_all queries st).0
  all-Caches [] query stmt st h = h
  all-Caches (other ∷ queries) query stmt (db, s) h =
      all-Caches queries query stmt (prepare sql other (db, s)).1
        (keeps-Caches query other stmt db s h)

  cached :
      (query : Bytes) (stmt : T) (st : Db T × S)
      → Caches query stmt st.0
      → prepare sql query st ≡ (ok stmt, st)
  unfolding prepare
  cached query stmt (db, s) h = rw h refl

  -- A query that was prepared gives the same statement again, whatever queries are prepared in between, and
  -- nothing is asked of the database for it.
  pub prepare_again :
      (query : Bytes) (stmt : T) (db : Db T) (s : S)
      → (prepare sql query (db, s)).0 ≡ ok stmt
      → (queries : List Bytes)
      → (let st = prepare_all queries (prepare sql query (db, s)).1 in
          prepare sql query st ≡ (ok stmt, st))
  prepare_again query stmt db s h queries =
      let st = (prepare sql query (db, s)).1 in
      cached query stmt (prepare_all queries st)
        (all-Caches queries query stmt st (prepare-Caches query stmt db s h))
