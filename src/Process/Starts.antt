-- ===== src/Process/Starts.antt =====
-- The start of the process on a directory with state (`New` of pkg/server/server.go).
use k8s_dqlite.Prelude.{◌≡◌, refl, ap, Bool, true, false, List, all}
use k8s_dqlite.Bytes.{Bytes, codes}
use k8s_dqlite.Results.{Error, Result, ok, err}
use k8s_dqlite.Process.{
  file_exists, Outside, Settings, Step, expected, known_action, require, continue, handle_init,
  handle_address, make, new, ◌>>◌,
}

module _ {S : Type 0} (o : Outside S) (s : S) where
  -- An error, with nothing changed.
  abbrev pub Refuses : {A : Type 0} → Result A × S → Type 0
  Refuses {A} out = (e : Error) × (out ≡ (err e, s))

  init-Refuses :
      (files : List Bytes)
      → o.read_dir s ≡ (ok files, s)
      → all expected files ≡ false
      → Refuses (handle_init o s)
  unfolding handle_init expected
  init-Refuses files r u = rw (r, u) (_, refl)

  address-Refuses :
      (files : List Bytes)
      → o.stat (codes "init.yaml") s ≡ (ok true, s)
      → o.read_dir s ≡ (ok files, s)
      → all expected files ≡ false
      → Refuses (handle_address o s)
  unfolding handle_address file_exists
  address-Refuses files i r u = rw i (init-Refuses files r u)

  continue-Refuses :
      {A B : Type 0} (f : A → Step S B) (out : Result A × S)
      → Refuses out
      → Refuses (continue out.0 f out.1)
  continue-Refuses f (r, s') (e, h) = rw (ap (λ out. out.0) h, ap (λ out. out.1) h) (e, refl)

  make-Refuses :
      (settings : Settings) (files : List Bytes)
      → o.stat (codes "init.yaml") s ≡ (ok true, s)
      → o.read_dir s ≡ (ok files, s)
      → all expected files ≡ false
      → Refuses (make o settings s)
  unfolding make
  make-Refuses settings files i r u =
      continue-Refuses _ (handle_address o s) (address-Refuses files i r u)

  -- Where there is an init.yaml, and a file in the directory that is none of those expected: New fails, and has
  -- changed nothing.
  pub new-Refuses :
      (settings : Settings) (files : List Bytes)
      → o.stat (codes "init.yaml") s ≡ (ok true, s)
      → o.read_dir s ≡ (ok files, s)
      → all expected files ≡ false
      → Refuses (new o settings s)
  unfolding new
  new-Refuses settings files i r u = by_action (known_action settings.low_available_storage_action)
    where
      by_action :
          (b : Bool)
          → Refuses ((require o b "unsupported low available storage action" >> make o settings) s)
      by_action true = make-Refuses settings files i r u
      by_action false = (_, refl)
