-- ===== src/Migrator.antt =====
-- The migrator (pkg/migrator/migrator.go, util.go): a database is written into a directory, a key file and a
-- data file per key, and read back from there.
pub mod Files
pub mod Puts
pub mod Runs
pub mod Modes
use k8s_dqlite.Prelude.{
  ℕ, zero, suc, String, Bool, true, false, Option, none, some, List, [], ◌∷◌, map, if◌then◌else◌,
  ◌==◌,
}
use k8s_dqlite.Bytes.{Bytes, codes}
use k8s_dqlite.Table.{Blob}
use k8s_dqlite.Events.{KeyValue}
use k8s_dqlite.Client
use k8s_dqlite.Client.{
  Failure, Reply, done, failed, Act, give, proceed, Etcd, Value, says_key_exists,
}

-- keyFileName and dataFileName: the directory's two files of an index. Different indices have different names.
pub data FileName : Type 0 where
  key_file : ℕ → FileName
  data_file : ℕ → FileName

abbrev pub same_file : FileName → FileName → Bool
same_file (key_file i) (key_file j) = i == j
same_file (data_file i) (data_file j) = i == j
same_file _ _ = false

-- The errors: of the file system, of the client, and what is wrapped around them.
pub data Trouble : Type 0 where
  io not_exist : Trouble
  of_client : Failure → Trouble
  caused : String → Trouble → Trouble
  at_index : String → ℕ → Trouble → Trouble
  about_key : String → Bytes → Trouble → Trouble

-- The directory. `broken` holds, for the next calls of the file system in turn, `none` where the call works, or
-- what a failing write leaves of its file. After the last one every call works.
pub record Disk : Type 0 where
  pub files : FileName → Option Bytes
  pub broken : List (Option (Option Bytes))

abbrev pub Io : Type 0 → Type 0
Io A = Disk → Reply Trouble A × Disk

abbrev pub set : FileName → Option Bytes → (FileName → Option Bytes) → FileName → Option Bytes
set name content files other = if same_file other name then content else files other

-- os.MkdirAll
abbrev pub make_over : List (Option (Option Bytes)) → Io (Unit {0})
make_over [] disk = (done tt, disk)
make_over (none ∷ rest) disk = (done tt, record disk { broken = rest })
make_over (some left ∷ rest) disk = (failed io, record disk { broken = rest })

-- os.WriteFile
abbrev pub write_over : List (Option (Option Bytes)) → FileName → Bytes → Io (Unit {0})
write_over [] name content disk =
    (done tt, record disk { files = set name (some content) disk.files })
write_over (none ∷ rest) name content disk =
    (done tt, record { files = set name (some content) disk.files; broken = rest })
write_over (some left ∷ rest) name content disk =
    (failed io, record { files = set name left disk.files; broken = rest })

abbrev pub found : Option Bytes → Reply Trouble Bytes
found none = failed not_exist
found (some content) = done content

-- os.ReadFile
abbrev pub read_over : List (Option (Option Bytes)) → FileName → Io Bytes
read_over [] name disk = (found (disk.files name), disk)
read_over (none ∷ rest) name disk = (found (disk.files name), record disk { broken = rest })
read_over (some left ∷ rest) name disk = (failed io, record disk { broken = rest })

abbrev pub write_file : FileName → Bytes → Io (Unit {0})
write_file name content disk = write_over disk.broken name content disk

abbrev pub read_file : FileName → Io Bytes
read_file name disk = read_over disk.broken name disk

-- What a nil or empty slice leaves in a file.
abbrev pub content_of : Blob → Bytes
content_of none = []
content_of (some content) = content

abbrev pub and_then : Reply Trouble (Unit {0}) → (Trouble → Trouble) → Io (Unit {0}) → Io (Unit {0})
and_then (done u) why rest disk = rest disk
and_then (failed e) why rest disk = (failed (why e), disk)

-- The loop of the two backups, from an index on.
unfoldable pub write_all : ℕ → List (Bytes × Bytes) → Io (Unit {0})
write_all idx [] disk = (done tt, disk)
write_all idx ((key, value) ∷ pairs) disk =
    let (r, disk1) = write_file (key_file idx) key disk in
    and_then r (at_index "failed to write key file" idx)
      (λ disk1.
        let (r, disk2) = write_file (data_file idx) value disk1 in
        and_then r (at_index "failed to write data file" idx) (write_all (suc idx) pairs) disk2)
      disk1

unfoldable pub save : List (Bytes × Bytes) → Io (Unit {0})
unfolding write_all
save pairs disk =
    let (r, disk1) = make_over disk.broken disk in
    and_then r (caused "failed to backup directory") (write_all 0 pairs) disk1

-- What is listed is written down, where the listing did not fail.
abbrev pub saved :
    {A : Type 0} → String → (A → Bytes × Bytes) → Reply Failure (List A) → Io (Unit {0})
unfolding save
saved why pair (done items) disk = save (map pair items) disk
saved why pair (failed e) disk = (failed (caused why (of_client e)), disk)

abbrev pub kv_pair : KeyValue → Bytes × Bytes
kv_pair kv = (kv.key, content_of kv.value)

abbrev pub value_pair : Value → Bytes × Bytes
value_pair val = (val.key, content_of val.content)

module _ {S : Type 0} where
  -- The first argument is what clientv3.New and client.New give.
  unfoldable pub backup_etcd :
      Reply Failure (Etcd S) → S × Disk → Reply Trouble (Unit {0}) × (S × Disk)
  unfolding save
  backup_etcd (failed e) (s, disk) =
      (failed (caused "failed to create etcd client" (of_client e)), (s, disk))
  backup_etcd (done c) (s, disk) =
      let (r, s') = c.get_all s in
      let (x, disk') = saved "failed to list keys from etcd" kv_pair r disk in (x, (s', disk'))

  unfoldable pub backup_dqlite :
      Reply Failure (Etcd S) → S × Disk → Reply Trouble (Unit {0}) × (S × Disk)
  unfolding save Client.list
  backup_dqlite (failed e) (s, disk) =
      (failed (caused "failed to create k8s-dqlite client" (of_client e)), (s, disk))
  backup_dqlite (done c) (s, disk) =
      let (r, s') = Client.list c (codes "/") 0 s in
      let (x, disk') = saved "failed to list keys from dqlite" value_pair r disk in (x, (s', disk'))

  -- The attempts to overwrite a key, after the error of the one before.
  unfoldable pub overwrite : Etcd S → ℕ → Bytes → Bytes → Failure → S → Reply Trouble (Unit {0}) × S
  unfolding Client.put
  overwrite c zero key value e s = (failed (about_key "failed to put key" key (of_client e)), s)
  overwrite c (suc n) key value e s =
      let (r, s') = Client.put c key value s in
      elim r [ done u ↦ (done tt, s') | failed e' ↦ overwrite c n key value e' s' ]

  abbrev pub put_after :
      Etcd S → Bytes → Bytes → Reply Failure (Unit {0}) → S → Reply Trouble (Unit {0}) × S
  unfolding overwrite
  put_after c key value (done u) s = (done tt, s)
  put_after c key value (failed e) s =
      if says_key_exists e
      then overwrite c 5 key value e s
      else (failed (about_key "failed to create key" key (of_client e)), s)

  -- putKey
  unfoldable pub put_key : Etcd S → Bytes → Bytes → S → Reply Trouble (Unit {0}) × S
  unfolding Client.create overwrite
  put_key c key value s = let (r, s') = Client.create c key value s in put_after c key value r s'

  -- A read of the loop's file, which ends the loop where it fails.
  abbrev pub on_value :
      Reply Trouble Bytes
      → (Bytes → Disk → Option (Reply Trouble (Unit {0})) × (S × Disk))
      → S
      → Disk
      → Option (Reply Trouble (Unit {0})) × (S × Disk)
  on_value (done value) k s disk = k value disk
  on_value (failed e) k s disk = (some (failed (caused "failed to read value file" e)), (s, disk))

  abbrev pub on_key :
      Reply Trouble Bytes
      → (Bytes → Disk → Option (Reply Trouble (Unit {0})) × (S × Disk))
      → S
      → Disk
      → Option (Reply Trouble (Unit {0})) × (S × Disk)
  on_key (done key) k s disk = k key disk
  on_key (failed not_exist) k s disk = (some (done tt), (s, disk))
  on_key (failed io) k s disk = (some (failed (caused "failed to read key file" io)), (s, disk))
  on_key (failed (of_client e)) k s disk =
      (some (failed (caused "failed to read key file" (of_client e))), (s, disk))
  on_key (failed (caused why e)) k s disk =
      (some (failed (caused "failed to read key file" (caused why e))), (s, disk))
  on_key (failed (at_index why i e)) k s disk =
      (some (failed (caused "failed to read key file" (at_index why i e))), (s, disk))
  on_key (failed (about_key why key e)) k s disk =
      (some (failed (caused "failed to read key file" (about_key why key e))), (s, disk))

  -- The loop of the two restores, which drops the error of the write; `none` where the fuel ran out.
  unfoldable pub restore_from :
      (Bytes → Bytes → S → S) → ℕ → ℕ → S → Disk → Option (Reply Trouble (Unit {0})) × (S × Disk)
  restore_from put zero idx s disk = (none, (s, disk))
  restore_from put (suc fuel) idx s disk =
      let (r, disk1) = read_file (key_file idx) disk in
      on_key r
        (λ key disk1.
          let (r, disk2) = read_file (data_file idx) disk1 in
          on_value r (λ value disk2. restore_from put fuel (suc idx) (put key value s) disk2) s
            disk2)
        s disk1

  abbrev pub writes_key : Etcd S → Bytes → Bytes → S → S
  unfolding put_key
  writes_key c key value s = (put_key c key value s).1

  unfoldable pub restore_to_dqlite :
      ℕ → Reply Failure (Etcd S) → S × Disk → Option (Reply Trouble (Unit {0})) × (S × Disk)
  unfolding restore_from put_key
  restore_to_dqlite fuel (failed e) (s, disk) =
      (some (failed (caused "failed to create client" (of_client e))), (s, disk))
  restore_to_dqlite fuel (done c) (s, disk) = restore_from (writes_key c) fuel 0 s disk

  unfoldable pub restore_to_etcd :
      ℕ → Reply Failure (Etcd S) → S × Disk → Option (Reply Trouble (Unit {0})) × (S × Disk)
  unfolding restore_from
  restore_to_etcd fuel (failed e) (s, disk) =
      (some (failed (caused "failed to create client" (of_client e))), (s, disk))
  restore_to_etcd fuel (done c) (s, disk) =
      restore_from (λ key value s. (c.put key value s).1) fuel 0 s disk
