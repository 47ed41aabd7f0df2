-- ===== src/Migrator/Files.antt =====
-- The directory of the migrator (pkg/migrator/migrator.go): what the backup's loop leaves there, and what the
-- restore's loop makes of it.
use k8s_dqlite.Prelude.{
  ℕ, zero, suc, ◌+◌, ◌≤◌, ◌<◌, ◌≡◌, refl, ap, ◌∙◌, ◌≢◌, true, false, Option, none, some, List, [],
  ◌∷◌, arith, length, ◌==◌, ==_iff, Bool-cases, inl, inr, subst,
}
use k8s_dqlite.Bytes.{Bytes}
use k8s_dqlite.Client.{Reply, done, failed}
use k8s_dqlite.Migrator.{
  FileName, key_file, data_file, Disk, set, write_all, restore_from, Trouble, read_file, read_over,
  found, on_key, on_value, io, not_exist, of_client, caused, at_index, about_key,
}

-- The files hold the pairs, from the index on, and no more.
abbrev pub Stored : ℕ → List (Bytes × Bytes) → (FileName → Option Bytes) → Type 0
Stored idx [] f = f (key_file idx) ≡ none
Stored idx ((key, value) ∷ pairs) f =
    (f (key_file idx) ≡ some key) × (f (data_file idx) ≡ some value) × Stored (suc idx) pairs f

-- The files of the indices below are as they were.
abbrev Kept : ℕ → (FileName → Option Bytes) → (FileName → Option Bytes) → Type 0
Kept idx f g =
    (i : ℕ) → i < idx → (g (key_file i) ≡ f (key_file i)) × (g (data_file i) ≡ f (data_file i))

eq_false : (a b : ℕ) → a < b → (a == b) ≡ false
eq_false a b h = ground arith

eq_refl : (a : ℕ) → (a == a) ≡ true
eq_refl a = ground arith

abbrev pub put_pair : ℕ → Bytes × Bytes → (FileName → Option Bytes) → FileName → Option Bytes
put_pair idx (key, value) f = set (data_file idx) (some value) (set (key_file idx) (some key) f)

-- The files after the loop.
abbrev pub put_all : ℕ → List (Bytes × Bytes) → (FileName → Option Bytes) → FileName → Option Bytes
put_all idx [] f = f
put_all idx (pair ∷ pairs) f = put_all (suc idx) pairs (put_pair idx pair f)

put_all-Kept :
    (idx : ℕ) (pairs : List (Bytes × Bytes)) (f : FileName → Option Bytes)
    → Kept idx f (put_all idx pairs f)
put_all-Kept idx [] f i h = (refl, refl)
put_all-Kept idx ((key, value) ∷ pairs) f i h =
    let (p, q) = put_all-Kept (suc idx) pairs (put_pair idx (key, value) f) i (omega (arith, h)) in
    (p ∙ rw (eq_false i idx h) refl, q ∙ rw (eq_false i idx h) refl)

put_all-end :
    (idx : ℕ) (pairs : List (Bytes × Bytes)) (f : FileName → Option Bytes) (n : ℕ)
    → idx + length pairs ≤ n
    → put_all idx pairs f (key_file n) ≡ f (key_file n)
put_all-end idx [] f n h = refl
put_all-end idx ((key, value) ∷ pairs) f n h =
    let p : (n == idx) ≡ false = ground (arith, h) in
    put_all-end (suc idx) pairs (put_pair idx (key, value) f) n (omega (arith, h)) ∙ rw p refl

pub put_all-Stored :
    (idx : ℕ) (pairs : List (Bytes × Bytes)) (f : FileName → Option Bytes)
    → f (key_file (idx + length pairs)) ≡ none
    → Stored idx pairs (put_all idx pairs f)
put_all-Stored idx [] f h = subst (λ (n : ℕ). f (key_file n) ≡ none) (omega arith) h
put_all-Stored idx ((key, value) ∷ pairs) f h =
    let (p, q) = put_all-Kept (suc idx) pairs (put_pair idx (key, value) f) idx (omega arith) in
    let away : ((suc idx + length pairs) == idx) ≡ false = ground arith in
    let next : f (key_file (suc idx + length pairs)) ≡ none =
      subst (λ (n : ℕ). f (key_file n) ≡ none) (omega arith) h in
    (
      p ∙ rw (eq_refl idx) refl,
      q ∙ rw (eq_refl idx) refl,
      put_all-Stored (suc idx) pairs (put_pair idx (key, value) f) (rw away next),
    )

pub write_all-put_all :
    (idx : ℕ) (pairs : List (Bytes × Bytes)) (f : FileName → Option Bytes)
    → write_all idx pairs (record { files = f; broken = [] })
      ≡ (done tt, record { files = put_all idx pairs f; broken = [] })
unfolding write_all
write_all-put_all idx [] f = refl
write_all-put_all idx ((key, value) ∷ pairs) f =
    write_all-put_all (suc idx) pairs (put_pair idx (key, value) f)

read_file-files : (name : FileName) (disk : Disk) → (read_file name disk).1.files ≡ disk.files
read_file-files name disk = by_slot disk.broken
  where
    by_slot : (b : List (Option (Option Bytes))) → (read_over b name disk).1.files ≡ disk.files
    by_slot [] = refl
    by_slot (none ∷ rest) = refl
    by_slot (some left ∷ rest) = refl

found-absent : (o : Option Bytes) (content : Bytes) → o ≡ none → found o ≢ done content
found-absent none content h e = absurd (cc (e))
found-absent (some x) content h e = absurd (cc (h))

read_file-absent :
    (name : FileName) (content : Bytes) (disk : Disk)
    → disk.files name ≡ none
    → (read_file name disk).0 ≢ done content
read_file-absent name content disk h = by_slot disk.broken
  where
    by_slot : (b : List (Option (Option Bytes))) → (read_over b name disk).0 ≢ done content
    by_slot [] = found-absent (disk.files name) content h
    by_slot (none ∷ rest) = found-absent (disk.files name) content h
    by_slot (some left ∷ rest) = λ e. absurd (cc (e))

module _ {S : Type 0} (put : Bytes → Bytes → S → S) where
  -- The pairs, put in their order.
  abbrev pub put_pairs : List (Bytes × Bytes) → S → S
  put_pairs [] s = s
  put_pairs ((key, value) ∷ pairs) s = put_pairs pairs (put key value s)

  pub restore-Stored :
      (fuel idx : ℕ) (pairs : List (Bytes × Bytes)) (f : FileName → Option Bytes) (s : S)
      → Stored idx pairs f
      → length pairs < fuel
      → restore_from put fuel idx s (record { files = f; broken = [] })
        ≡ (some (done tt), (put_pairs pairs s, record { files = f; broken = [] }))
  unfolding restore_from
  restore-Stored zero idx pairs f s h n = absurd (omega (arith, n))
  restore-Stored (suc fuel) idx [] f s h n = rw h refl
  restore-Stored (suc fuel) idx ((key, value) ∷ pairs) f s (p, q, h) n =
      rw (p, q) (restore-Stored fuel (suc idx) pairs f (put key value s) h (omega (arith, n)))

  on_key_ends :
      (r : Reply Trouble Bytes) (k : Bytes → Disk → Option (Reply Trouble (Unit {0})) × (S × Disk))
      (s : S) (disk : Disk)
      → ((key : Bytes) → r ≡ done key → (k key disk).0 ≢ none)
      → (on_key r k s disk).0 ≢ none
  on_key_ends (done key) k s disk h = h key refl
  on_key_ends (failed not_exist) k s disk h = λ e. absurd (cc (e))
  on_key_ends (failed io) k s disk h = λ e. absurd (cc (e))
  on_key_ends (failed (of_client x)) k s disk h = λ e. absurd (cc (e))
  on_key_ends (failed (caused why x)) k s disk h = λ e. absurd (cc (e))
  on_key_ends (failed (at_index why i x)) k s disk h = λ e. absurd (cc (e))
  on_key_ends (failed (about_key why key x)) k s disk h = λ e. absurd (cc (e))

  on_value_ends :
      (r : Reply Trouble Bytes) (k : Bytes → Disk → Option (Reply Trouble (Unit {0})) × (S × Disk))
      (s : S) (disk : Disk)
      → ((value : Bytes) → (k value disk).0 ≢ none)
      → (on_value r k s disk).0 ≢ none
  on_value_ends (done value) k s disk h = h value
  on_value_ends (failed x) k s disk h = λ e. absurd (cc (e))

  -- Where there is no key file of an index, the restore's loop from an index that is no larger ends in as many
  -- rounds as there are to that one, whatever fails.
  pub restore_ends :
      (fuel idx n : ℕ) (s : S) (disk : Disk)
      → disk.files (key_file n) ≡ none
      → idx ≤ n
      → n < idx + fuel
      → (restore_from put fuel idx s disk).0 ≢ none
  unfolding restore_from
  restore_ends zero idx n s disk h p q = absurd (omega (arith, p, q))
  restore_ends (suc fuel) idx n s disk h p q =
      let (r, disk1) = read_file (key_file idx) disk in
      on_key_ends r _ s disk1 λ key e.
        let (r', disk2) = read_file (data_file idx) disk1 in
        on_value_ends r' _ s disk2 λ value.
          restore_ends fuel (suc idx) n (put key value s) disk2
            (ap (λ (f : FileName → Option Bytes). f (key_file n))
                (read_file-files (data_file idx) disk1 ∙ read_file-files (key_file idx) disk)
              ∙ h)
            (later key e) (omega (arith, q))
    where
      later : (key : Bytes) → (read_file (key_file idx) disk).0 ≡ done key → suc idx ≤ n
      later key e = elim (Bool-cases (idx == n)) [
        | inl m ↦ absurd (
            read_file-absent (key_file idx) key disk
              (ap (λ (i : ℕ). disk.files (key_file i)) ((==_iff idx n).0 m) ∙ h) e)
        | inr m ↦ ground (arith, p, m)
      ]
