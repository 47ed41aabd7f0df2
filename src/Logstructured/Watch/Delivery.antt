-- ===== src/Logstructured/Watch/Delivery.antt =====
-- What a watch delivers (pkg/kine/logstructured/logstructured.go): the join of the batches that the
-- goroutine of `Watch` sends.
use k8s_dqlite.Prelude.{
  ℕ, zero, suc, ◌≤◌, ◌<◌, ◌≡◌, refl, ap, ◌∙◌, sym, ◌⊎◌, inl, inr, Bool, true, false, List, [], ◌∷◌,
  ◌++◌, map, ltb, leb, leb→le, leb_false→lt, if◌then◌else◌, arith, Bool-cases,
}
use k8s_dqlite.Prelude as P
use k8s_dqlite.Events.{Event}
use k8s_dqlite.Logstructured.Watch.{filter, relay, last_revision}

abbrev pub join : List (List Event) → List Event
join [] = []
join (batch ∷ rest) = batch ++ join rest

-- The revisions grow along the list, from above `revision`.
abbrev pub Rising : ℕ → List Event → Type 0
Rising revision [] = Unit
Rising revision (e ∷ es) = (revision < e.kv.mod_revision) × Rising e.kv.mod_revision es

abbrev pub UpTo : ℕ → List Event → Type 0
UpTo revision [] = Unit
UpTo revision (e ∷ es) = (e.kv.mod_revision ≤ revision) × UpTo revision es

abbrev pub is_past : ℕ → Event → Bool
is_past revision e = ltb revision e.kv.mod_revision

-- Past the revision, nothing is dropped.
kept :
    (rev low : ℕ) (batch : List Event) (rest : List Event)
    → rev ≤ low
    → Rising low (batch ++ rest)
    → filter batch rev ≡ batch
unfolding filter
kept rev low [] rest p h = refl
kept rev low (e ∷ es) rest p h = ground arith

all_past :
    (rev low : ℕ) (events : List Event)
    → rev ≤ low
    → Rising low events
    → P.filter (is_past rev) events ≡ events
all_past rev low [] p h = refl
all_past rev low (e ∷ es) p h =
    let ih = all_past rev e.kv.mod_revision es (omega (arith, h.0)) h.1 in ground (arith, ih, h.0)

-- One batch, with what comes after it.
filter_split :
    (rev low : ℕ) (batch rest : List Event)
    → Rising low (batch ++ rest)
    → filter batch rev ≡ P.filter (is_past rev) batch
unfolding filter
filter_split rev low [] rest h = refl
filter_split rev low (e ∷ es) rest h = elim (Bool-cases (leb e.kv.mod_revision rev)) [
  | inl b ↦ let ih = filter_split rev e.kv.mod_revision es rest h.1 in ground (arith, ih)
  | inr b ↦
      let ih = kept rev e.kv.mod_revision es rest (ground arith) h.1 in
      let k = filter_split rev e.kv.mod_revision es rest h.1 in ground (arith, ih, k)
]

Rising-rest :
    (low : ℕ) (batch rest : List Event) → Rising low (batch ++ rest) → (from : ℕ) × Rising from rest
Rising-rest low [] rest h = (low, h)
Rising-rest low (e ∷ es) rest h = Rising-rest e.kv.mod_revision es rest h.1

filter-append :
    (rev : ℕ) (xs ys : List Event)
    → P.filter (is_past rev) (xs ++ ys) ≡ P.filter (is_past rev) xs ++ P.filter (is_past rev) ys
filter-append rev [] ys = refl
filter-append rev (x ∷ xs) ys = let ih = filter-append rev xs ys in ground (arith, ih)

join-filter :
    (rev low : ℕ) (live : List (List Event))
    → Rising low (join live)
    → join (map (λ batch. filter batch rev) live) ≡ P.filter (is_past rev) (join live)
join-filter rev low [] h = refl
join-filter rev low (batch ∷ live) h =
    let (from, r) = Rising-rest low batch (join live) h in
    rw (filter_split rev low batch (join live) h, join-filter rev from live r)
      (sym (filter-append rev batch (join live)))

first :
    (revision rev : ℕ) (kvs : List Event) (live : List (List Event))
    → join (relay revision rev kvs live)
      ≡ kvs ++ join (map (λ batch. filter batch (last_revision revision rev kvs)) live)
unfolding relay
first revision rev [] live = refl
first revision rev (e ∷ es) live = refl

filtered :
    (revision rev low : ℕ) (kvs : List Event) (live : List (List Event))
    → Rising low (join live)
    → join (relay revision rev kvs live)
      ≡ kvs ++ P.filter (is_past (last_revision revision rev kvs)) (join live)
filtered revision rev low kvs live h =
    first revision rev kvs live
    ∙ ap (λ (x : List Event). kvs ++ x) (join-filter (last_revision revision rev kvs) low live h)

Rising-below :
    (low high : ℕ) (events : List Event) → low ≤ high → Rising high events → Rising low events
Rising-below low high [] p h = tt
Rising-below low high (e ∷ es) p h = (omega (arith, h.0), h.1)

Rising-filter :
    (rev low : ℕ) (events : List Event)
    → Rising low events
    → Rising rev (P.filter (is_past rev) events)
Rising-filter rev low [] h = tt
Rising-filter rev low (e ∷ es) h = elim (Bool-cases (ltb rev e.kv.mod_revision)) [
  | inl b ↦
      let q : rev < e.kv.mod_revision = ground arith in
      rw (b, all_past rev e.kv.mod_revision es (omega (arith, q)) h.1) (q, h.1)
  | inr b ↦ rw b (Rising-filter rev e.kv.mod_revision es h.1)
]

Rising-append :
    (low rev : ℕ) (xs ys : List Event)
    → low ≤ rev
    → Rising low xs
    → UpTo rev xs
    → Rising rev ys
    → Rising low (xs ++ ys)
Rising-append low rev [] ys p h u k = Rising-below low rev ys p k
Rising-append low rev (e ∷ es) ys p h u k =
    (h.0, Rising-append e.kv.mod_revision rev es ys u.0 h.1 u.1 k)

by_batch :
    (revision rev : ℕ) (kvs : List Event) (ys : List Event)
    → revision ≤ rev
    → Rising revision kvs
    → UpTo rev kvs
    → Rising (last_revision revision rev kvs) ys
    → Rising revision (kvs ++ ys)
by_batch revision rev [] ys p h u k = k
by_batch revision rev (e ∷ es) ys p h u k = Rising-append revision rev (e ∷ es) ys p h u k

-- Where the live watch and the log both give events in the order of their revisions, and those of the log
-- are past the revision that was asked for and up to the current one, which is no less, the revisions of
-- all that is delivered grow: no event comes twice.
pub relay-Rising :
    (revision rev low : ℕ) (kvs : List Event) (live : List (List Event))
    → revision ≤ rev
    → Rising revision kvs
    → UpTo rev kvs
    → Rising low (join live)
    → Rising revision (join (relay revision rev kvs live))
relay-Rising revision rev low kvs live p h u k =
    let later = Rising-filter (last_revision revision rev kvs) low (join live) k in
    rw (filtered revision rev low kvs live k) (by_batch revision rev kvs _ p h u later)
