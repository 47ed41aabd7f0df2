-- ===== src/Tests/Views.antt =====
-- Witnesses for the reads of the backend, now and at a revision.
use k8s_dqlite.Prelude.{
  inl, ℕ, ◌≡◌, refl, true, false, some, List, [], ◌∷◌, arith, ◌≤◌, all, all-In, ltb, ltb→lt,
  &&_left, &&_right,
}
use k8s_dqlite.Bytes.{Bytes, codes, same, has_prefix, has_suffix_slash}
use k8s_dqlite.Bytes.Ranges.{IsReadable}
use k8s_dqlite.Events.{KeyValue}
use k8s_dqlite.Table.{
  Row, create_sql, update_sql, delete_sql, latest, insert, place, compact_rev_key,
}
use k8s_dqlite.Table.Lookup.{AllReadable}
use k8s_dqlite.Table.Steps.{create, delete}
use k8s_dqlite.Table.History.{Runs, done, next}
use k8s_dqlite.Table.Intervals.{HasKey}
use k8s_dqlite.Sqllog.{do_compact}
use k8s_dqlite.Sqllog.Compacts.{Unseen, do_compact-Unseen}
use k8s_dqlite.Exec.Gives.{Gives}
use k8s_dqlite.Logstructured
use k8s_dqlite.Logstructured.Gets.{Finds, as_of, get-Finds}
use k8s_dqlite.Logstructured.Past.{list-Past}
use k8s_dqlite.Logstructured.Listings.{IsListing}
use k8s_dqlite.Logstructured.Lists.{list-IsListing}
use k8s_dqlite.Tests.{pod, pod_user, t3, t3-IsLog, t5, t5-IsLog, busy, shaky}

IsReadable-of_all : (name : Bytes) → all (ltb 1) name ≡ true → IsReadable name
IsReadable-of_all [] h = tt
IsReadable-of_all (x ∷ xs) h =
    (ltb→lt 1 x (&&_left _ _ h), IsReadable-of_all xs (&&_right (ltb 1 x) _ h))

t5-AllReadable : AllReadable t5.rows
unfolding create_sql update_sql delete_sql latest insert place same
t5-AllReadable a m =
    IsReadable-of_all a.name (all-In (λ (r : Row). all (ltb 1) r.name) a t5.rows refl m)

t5-HasKey : HasKey t5.rows
unfolding create_sql update_sql delete_sql latest insert place same
t5-HasKey = (_, inl refl, refl)

do_compact-Unseen_example :
    Unseen busy shaky t5-IsLog t5-AllReadable t5-HasKey (do_compact busy shaky).1.table
do_compact-Unseen_example = do_compact-Unseen busy shaky t5-IsLog t5-AllReadable t5-HasKey

pods_slash : has_suffix_slash (codes "/pods/") ≡ true
unfolding has_suffix_slash
pods_slash = refl

pod_slash : has_suffix_slash pod ≡ false
unfolding has_suffix_slash
pod_slash = refl

get-Finds_example : Gives (Finds pod 3 t5) (Logstructured.get busy pod [] 1 3 shaky)
get-Finds_example = get-Finds busy shaky t5-IsLog t5-AllReadable pod pod_slash 3 1

list-IsListing_example :
    Gives
      (λ (r : ℕ × List KeyValue) s'. IsListing (codes "/pods/") (as_of 3 t5) r.1 × (s'.table ≡ t5))
      (Logstructured.list busy (codes "/pods/") (codes "/pods/") 0 3 shaky)
list-IsListing_example = list-IsListing busy t5-IsLog (codes "/pods/") pods_slash 3 shaky refl

-- From the third version of the table to the fifth.
later : Runs 0 t3 0 t5
unfolding latest
later =
    next (delete pod 3 pod_user refl refl)
      (next (create pod 0 (some (codes "x")) pod_user refl refl) done)

old : 3 ≤ t3.seq
unfolding create_sql update_sql delete_sql latest insert place same
old = omega arith

outside : has_prefix compact_rev_key (codes "/pods/") ≡ false
unfolding has_prefix
outside = refl

seq_t3 : t3.seq ≡ 3
unfolding create_sql update_sql delete_sql latest insert place same
seq_t3 = refl

list-Past_example :
    Gives
      (λ (r : ℕ × List KeyValue) s'. IsListing (codes "/pods/") t3 r.1 × (s'.table ≡ t5))
      (Logstructured.list busy (codes "/pods/") (codes "/pods/") 0 3 shaky)
list-Past_example =
    list-Past t3-IsLog later 2 seq_t3 (omega (arith, old)) (codes "/pods/") pods_slash outside busy
      shaky refl
