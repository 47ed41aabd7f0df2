-- ===== src/Spec.antt =====
-- The abstract store that the log stands for, in the terms of the etcd API: a revision counter and a
-- map from keys to entries, with compare-and-swap operations. It forgets the log, the tombstones and
-- the chain of previous revisions.
use k8s_dqlite.Prelude.{ℕ, suc, Bool, true, false, Option, none, some, if◌then◌else◌, ◌==◌}
use k8s_dqlite.Bytes.{Bytes, same}

pub record Entry : Type 0 where
  pub create_revision : ℕ
  pub mod_revision : ℕ
  pub lease : ℕ
  pub value : Option Bytes

pub record Store : Type 0 where
  pub revision : ℕ
  pub entries : Bytes → Option Entry

abbrev pub put : Bytes → Option Entry → Store → Store
put key entry s = record {
  revision = suc s.revision;
  entries = λ k. if same k key then entry else s.entries k;
}

-- Whether an operation took effect.
abbrev pub took : Option ℕ → Bool
took none = false
took (some revision) = true

-- What the caller of an operation is told: the exact new revision and yes, or revision 0 and no.
abbrev pub answer : Option ℕ → ℕ × Bool
answer none = (0, false)
answer (some revision) = (revision, true)

-- Each operation returns the new revision where it took effect, and changes nothing where not.
abbrev pub create_over : Option Entry → Bytes → ℕ → Option Bytes → Store → Option ℕ × Store
create_over none key lease value s = (
  some (suc s.revision),
  put key
      (some (record {
        create_revision = suc s.revision;
        mod_revision = suc s.revision;
        lease = lease;
        value = value;
      }))
      s,
)
create_over (some e) key lease value s = (none, s)

-- Create takes effect where the key has no entry.
unfoldable pub create : Bytes → ℕ → Option Bytes → Store → Option ℕ × Store
create key lease value s = create_over (s.entries key) key lease value s

abbrev pub update_over : Option Entry → Bytes → ℕ → Option Bytes → ℕ → Store → Option ℕ × Store
update_over none key lease value revision s = (none, s)
update_over (some e) key lease value revision s =
    if e.mod_revision == revision
    then (
      some (suc s.revision),
      put key (some (record e { mod_revision = suc s.revision; lease = lease; value = value })) s,
    )
    else (none, s)

-- Update takes effect where the entry of the key was written at the revision.
unfoldable pub update : Bytes → ℕ → Option Bytes → ℕ → Store → Option ℕ × Store
update key lease value revision s = update_over (s.entries key) key lease value revision s

abbrev pub delete_over : Option Entry → Bytes → ℕ → Store → Option ℕ × Store
delete_over none key revision s = (none, s)
delete_over (some e) key revision s =
    if e.mod_revision == revision then (some (suc s.revision), put key none s) else (none, s)

-- Delete takes effect where the entry of the key was written at the revision.
unfoldable pub delete : Bytes → ℕ → Store → Option ℕ × Store
delete key revision s = delete_over (s.entries key) key revision s
