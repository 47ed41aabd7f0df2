-- ===== src/Migrator/Runs.antt =====
-- A backup and a restore (pkg/migrator/migrator.go), one after the other.
use k8s_dqlite.Prelude.{
  ℕ, ◌<◌, ◌≡◌, refl, ap, sym, ◌∙◌, ◌∷◌, In-map, Option, none, some, List, [], map, arith, length,
  In, subst,
}
use k8s_dqlite.Bytes.{Bytes, codes}
use k8s_dqlite.Spec.{Store}
use k8s_dqlite.Events.{KeyValue}
use k8s_dqlite.Client
use k8s_dqlite.Client.{Failure, Reply, done, failed, Etcd, Value}
use k8s_dqlite.Client.Stores.{IsReliable}
use k8s_dqlite.Client.Puts.{Holds}
use k8s_dqlite.Migrator.{
  FileName, key_file, Disk, save, content_of, kv_pair, value_pair, backup_etcd, backup_dqlite,
  writes_key, restore_to_dqlite, restore_to_etcd,
}
use k8s_dqlite.Migrator.Files.{
  put_all, Stored, put_all-Stored, write_all-put_all, put_pairs, restore-Stored,
}
use k8s_dqlite.Migrator.Puts.{Distinct, put_pairs-Holds}

-- A directory whose file system works.
abbrev pub sound : (FileName → Option Bytes) → Disk
sound f = record { files = f; broken = [] }

module _ {S : Type 0} (c : Etcd S) (s : S) (f : FileName → Option Bytes) where
  backup_etcd_listed :
      (kvs : List KeyValue)
      → (c.get_all s).0 ≡ done kvs
      → backup_etcd (done c) (s, sound f)
        ≡ (done tt, ((c.get_all s).1, sound (put_all 0 (map kv_pair kvs) f)))
  unfolding backup_etcd save
  backup_etcd_listed kvs h = rw h (rw (write_all-put_all 0 (map kv_pair kvs) f) refl)

  backup_dqlite_listed :
      (values : List Value)
      → (Client.list c (codes "/") 0 s).0 ≡ done values
      → backup_dqlite (done c) (s, sound f) ≡ (
        done tt,
        ((Client.list c (codes "/") 0 s).1, sound (put_all 0 (map value_pair values) f)),
      )
  unfolding backup_dqlite save
  backup_dqlite_listed values h = rw h (rw (write_all-put_all 0 (map value_pair values) f) refl)

-- The directory after a backup, where no key file stands behind the last one.
backed_up :
    (f : FileName → Option Bytes) (pairs : List (Bytes × Bytes))
    → f (key_file (length pairs)) ≡ none
    → Stored 0 pairs (put_all 0 pairs f)
backed_up f pairs free =
    put_all-Stored 0 pairs f (subst (λ (n : ℕ). f (key_file n) ≡ none) (omega arith) free)

module _ {T : Type 0} (f : FileName → Option Bytes) (fuel : ℕ) where
  -- A target that never fails, and the pairs that a directory holds.
  restored :
      {good : T → Type 0} {view : T → Store} (c : Etcd T)
      → IsReliable good view c
      → (t : T) → good t
      → (pairs : List (Bytes × Bytes)) → Distinct pairs
      → f (key_file (length pairs)) ≡ none
      → length pairs < fuel
      → (let (o, (t', disk)) = restore_to_dqlite fuel (done c) (t, sound (put_all 0 pairs f)) in
          (o ≡ some (done tt)) × ((p : Bytes × Bytes) → In p pairs → Holds p.0 p.1 (view t')))
  unfolding restore_to_dqlite
  restored c l t g pairs d free enough =
      rw
        (restore-Stored (writes_key c) fuel 0 pairs (put_all 0 pairs f) t (backed_up f pairs free)
          enough)
        (refl, λ p m. put_pairs-Holds c l pairs t g d p m)

-- The bytes of a value: a nil value has none.
abbrev pub bytes_of : Option Bytes → Bytes
bytes_of none = []
bytes_of (some bytes) = bytes

-- A listed key with its value.
abbrev pub pair_of : KeyValue → Bytes × Bytes
pair_of kv = (kv.key, bytes_of kv.value)

-- The backup writes the value of each key into its data file.
kv_pair-pair_of : (kv : KeyValue) → kv_pair kv ≡ pair_of kv
kv_pair-pair_of kv = ap (λ (b : Bytes). (kv.key, b)) (by_value kv.value)
  where
    by_value : (o : Option Bytes) → content_of o ≡ bytes_of o
    by_value none = refl
    by_value (some b) = refl

map-pair_of : (kvs : List KeyValue) → map kv_pair kvs ≡ map pair_of kvs
map-pair_of [] = refl
map-pair_of (kv ∷ kvs) = rw (kv_pair-pair_of kv, map-pair_of kvs) refl

length-map : {A B : Type 0} (g : A → B) (xs : List A) → length (map g xs) ≡ length xs
length-map g [] = refl
length-map g (x ∷ xs) = let ih = length-map g xs in ground (arith, ih)

module _ {S T : Type 0} (f : FileName → Option Bytes) (fuel : ℕ) where
  -- A listing of etcd, with no key twice, that is backed up into a directory where no key file stands behind the
  -- last one, on a file system that works: restored to a store that does what the API promises and never
  -- fails, with fuel for one more round than there are keys, every key that was listed has there the value
  -- that was listed, the empty one where it was nil.
  pub etcd_to_dqlite :
      {good : T → Type 0} {view : T → Store} (c : Etcd S) (s : S) (c' : Etcd T) (t : T)
      (kvs : List KeyValue)
      → (c.get_all s).0 ≡ done kvs
      → Distinct (map pair_of kvs)
      → f (key_file (length kvs)) ≡ none
      → length kvs < fuel
      → IsReliable good view c'
      → good t
      → (let (r, (s', disk)) = backup_etcd (done c) (s, sound f) in
          let (o, (t', disk')) = restore_to_dqlite fuel (done c') (t, disk) in
          (r ≡ done tt)
          × (o ≡ some (done tt))
          × ((kv : KeyValue) → In kv kvs → Holds kv.key (bytes_of kv.value) (view t')))
  etcd_to_dqlite c s c' t kvs h d free enough l g =
      let n : length (map pair_of kvs) ≡ length kvs = length-map pair_of kvs in
      rw (backup_etcd_listed c s f kvs h, map-pair_of kvs)
        (let (o, holds) =
            restored f fuel c' l t g (map pair_of kvs) d (ap (λ i. f (key_file i)) n ∙ free)
              (subst (λ i. i < fuel) (sym n) enough) in
          (refl, o, λ kv i. holds (pair_of kv) (In-map pair_of kv kvs i)))

  -- A listing of the database that is backed up into a directory where no key file stands behind the last one,
  -- on a file system that works: the restore to etcd, with fuel for one more round than there are keys, puts
  -- exactly the listed keys with their values, in their order.
  pub dqlite_to_etcd :
      (c : Etcd S) (s : S) (c' : Etcd T) (t : T) (values : List Value)
      → (Client.list c (codes "/") 0 s).0 ≡ done values
      → f (key_file (length (map value_pair values))) ≡ none
      → length (map value_pair values) < fuel
      → (let (r, (s', disk)) = backup_dqlite (done c) (s, sound f) in
          let (o, (t', disk')) = restore_to_etcd fuel (done c') (t, disk) in
          (r ≡ done tt)
          × (o ≡ some (done tt))
          × (t' ≡ put_pairs (λ key value t. (c'.put key value t).1) (map value_pair values) t))
  unfolding restore_to_etcd
  dqlite_to_etcd c s c' t values h free enough =
      let pairs = map value_pair values in
      rw (backup_dqlite_listed c s f values h) (
        rw
          (restore-Stored (λ key value t. (c'.put key value t).1) fuel 0 pairs (put_all 0 pairs f) t
            (backed_up f pairs free) enough)
          (refl, refl, refl))
