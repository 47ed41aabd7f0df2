-- ===== src/Sqllog/Poll/Order.antt =====
-- The order in which the poll loop (pkg/kine/logstructured/sqllog/sql.go) hands events on.
use k8s_dqlite.Prelude.{
  ℕ, ◌+◌, ◌≤◌, ◌<◌, ◌≢◌, subst, ◌≡◌, refl, ap, sym, ◌∙◌, ◌⊎◌, inl, inr, Bool, true, false, Option,
  List, [], ◌∷◌, ◌++◌, arith, if◌then◌else◌, ◌||◌, ◌==◌, ==_iff, Bool-cases, filter, not,
}
use mathlib.Core.List.{append-nil, append_assoc}
use k8s_dqlite.Bytes.{Bytes, codes, has_prefix}
use k8s_dqlite.Results.{Result, ok, err}
use k8s_dqlite.Events.{Event}
use k8s_dqlite.Exec.{Sys}
use k8s_dqlite.Generic
use k8s_dqlite.Generic.{Config, is_fill}
use k8s_dqlite.Sqllog.Poll.{
  Scan, Choice, deliver, wait_once, fill_gap, can_skip_revision, choose, take_event, try_fill,
  filled, act, scan_events,
}

-- The revision is the one that was found missing, and that is more than a second ago.
abbrev pub IsOverdue : ℕ → ℕ → ℕ → ℕ → Type 0
IsOverdue now skip skip_time revision = (revision ≡ skip) × (skip_time + 1000000000 < now)

-- From `rev` on each event is the next revision, but where the next revision is overdue.
abbrev pub Follows : ℕ → ℕ → ℕ → ℕ → List Event → Type 0
Follows now skip skip_time rev [] = Unit
Follows now skip skip_time rev (e ∷ es) =
    ((e.kv.mod_revision ≡ rev + 1) ⊎ IsOverdue now skip skip_time (rev + 1))
    × Follows now skip skip_time e.kv.mod_revision es

-- After `rev` the loop stops before `rest`: there is nothing left, or the next revision is missing and not
-- overdue. Then, where that was found before, the record of it stays; where it is new, it is recorded
-- with the time.
abbrev pub Stops : ℕ → ℕ → ℕ → ℕ → List Event → ℕ → ℕ → Type 0
Stops now skip skip_time rev [] skip' time' = (skip' ≡ skip) × (time' ≡ skip_time)
Stops now skip skip_time rev (e ∷ es) skip' time' =
    (e.kv.mod_revision ≢ rev + 1)
    × (((skip ≡ rev + 1) × (now ≤ skip_time + 1000000000) × (skip' ≡ skip) × (time' ≡ skip_time))
        ⊎ ((skip ≢ rev + 1) × (skip' ≡ rev + 1) × (time' ≡ now)))

abbrev pub last_of : ℕ → List Event → ℕ
last_of rev [] = rev
last_of rev (e ∷ es) = last_of e.kv.mod_revision es

-- The events that are handed on: those whose keys do not begin with "gap-".
abbrev pub shown : List Event → List Event
shown = filter (λ (e : Event). not (has_prefix e.kv.key (codes "gap-")))

abbrev pub is_some_event : List Event → Bool
is_some_event [] = false
is_some_event (e ∷ es) = true

-- From the state `s` the loop took a first part of the events, handed on those that are no gap rows in their
-- order, moved the revision to the last one taken, and stopped.
pub record Takes (now : ℕ) (s : Scan) (events : List Event) (out : Scan) : Type 0 where
  pub taken : List Event
  pub rest : List Event
  pub parts : events ≡ taken ++ rest
  pub follows : Follows now s.skip s.skip_time s.rev taken
  pub stops : Stops now s.skip s.skip_time out.rev rest out.skip out.skip_time
  pub revision : out.rev ≡ last_of s.rev taken
  pub sent : out.sequential ≡ s.sequential ++ shown taken
  pub saved : out.save_last ≡ (s.save_last || is_some_event taken)

or_false : (b : Bool) → (b || false) ≡ b
or_false true = refl
or_false false = refl

or_true : (b : Bool) → (b || true) ≡ true
or_true true = refl
or_true false = refl

Takes-none :
    (now : ℕ) (s : Scan) (events : List Event) (out : Scan)
    → Stops now s.skip s.skip_time out.rev events out.skip out.skip_time
    → out.rev ≡ s.rev
    → out.sequential ≡ s.sequential
    → out.save_last ≡ s.save_last
    → Takes now s events out
Takes-none now s events out z r q b = record {
  stops = z;
  taken = [];
  rest = events;
  parts = refl;
  follows = tt;
  revision = r;
  sent = q ∙ sym (append-nil s.sequential);
  saved = b ∙ sym (or_false s.save_last);
}

filled_scan :
    (next : ℕ) (s : Scan) (r : Result (Option ℕ)) (sys : Sys) → (filled next s (r, sys)).0 ≡ s
filled_scan next s (ok row) sys = refl
filled_scan next s (err e) sys = refl

try_fill_scan : (d : Config) (next : ℕ) (s : Scan) (sys : Sys) → (try_fill d next s sys).0 ≡ s
unfolding try_fill
try_fill_scan d next s sys = let (r, sys') = Generic.fill d next sys in filled_scan next s r sys'

-- The loop skips a revision just where it is overdue.
can_skip-IsOverdue :
    (now rev skip skip_time : ℕ)
    → can_skip_revision now rev skip skip_time ≡ true
    → IsOverdue now skip skip_time rev
unfolding can_skip_revision
can_skip-IsOverdue now rev skip skip_time h = ground arith

can_skip-not_overdue :
    (now rev skip skip_time : ℕ)
    → can_skip_revision now rev skip skip_time ≡ false
    → skip ≡ rev
    → now ≤ skip_time + 1000000000
unfolding can_skip_revision
can_skip-not_overdue now rev skip skip_time h e = ground arith

-- What the loop does at an event, by the two ways it stops.
wait_cases :
    (now : ℕ) (s : Scan) (e : Event)
    → choose now s e ≡ wait_once
    → (e.kv.mod_revision ≢ s.rev + 1) × (s.skip ≢ s.rev + 1)
unfolding choose
wait_cases now s e h = ground arith

fill_cases :
    (now : ℕ) (s : Scan) (e : Event)
    → choose now s e ≡ fill_gap
    → (e.kv.mod_revision ≢ s.rev + 1)
      × (s.skip ≡ s.rev + 1)
      × (can_skip_revision now (s.rev + 1) s.skip s.skip_time ≡ false)
unfolding choose
fill_cases now s e h = ground arith

deliver_cases :
    (now : ℕ) (s : Scan) (e : Event)
    → choose now s e ≡ deliver
    → (e.kv.mod_revision ≡ s.rev + 1) ⊎ IsOverdue now s.skip s.skip_time (s.rev + 1)
unfolding choose
deliver_cases now s e h = elim (Bool-cases (e.kv.mod_revision == s.rev + 1)) [
  | inl t ↦ inl ((==_iff _ _).0 t)
  | inr f ↦ elim (Bool-cases (can_skip_revision now (s.rev + 1) s.skip s.skip_time)) [
    | inl t ↦ inr (can_skip-IsOverdue now (s.rev + 1) s.skip s.skip_time t)
    | inr g ↦ absurd (
        stopped (e.kv.mod_revision == s.rev + 1)
          (can_skip_revision now (s.rev + 1) s.skip s.skip_time) (s.skip == s.rev + 1) f g h)
  ]
]
  where
    stopped :
        (a b c : Bool)
        → a ≡ false
        → b ≡ false
        → (if a then deliver else if b then deliver else if c then fill_gap else wait_once)
          ≡ deliver
        → ⊥
    stopped a b c f g h = ground arith

is_fill-prefix : (key : Bytes) → is_fill key ≡ has_prefix key (codes "gap-")
unfolding is_fill
is_fill-prefix key = refl

sent_one :
    (fill : Bool) (before rest : List Event) (e : Event)
    → ((if fill then before else before ++ e ∷ []) ++ rest)
      ≡ before ++ (if not fill then e ∷ rest else rest)
sent_one true before rest e = refl
sent_one false before rest e = append_assoc before (e ∷ []) rest

Takes-one :
    (now : ℕ) (s : Scan) (e : Event) (es : List Event) (out : Scan)
    → choose now s e ≡ deliver
    → Takes now (take_event s e) es out
    → Takes now s (e ∷ es) out
unfolding take_event
Takes-one now s e es out h t = record {
  taken = e ∷ t.taken;
  rest = t.rest;
  parts = ap (◌∷◌ e) t.parts;
  follows = (deliver_cases now s e h, t.follows);
  revision = t.revision;
  stops = t.stops;
  sent =
      t.sent
      ∙ ap (λ (b : Bool). (if b then s.sequential else s.sequential ++ e ∷ []) ++ shown t.taken)
          (is_fill-prefix e.kv.key)
      ∙ sent_one (has_prefix e.kv.key (codes "gap-")) s.sequential (shown t.taken) e;
  saved = t.saved ∙ sym (or_true s.save_last);
}

act-Takes :
    (d : Config) (now : ℕ) (e : Event) (es : List Event) (s : Scan) (sys : Sys) (x : Choice)
    → choose now s e ≡ x
    → ((s' : Scan) (sys' : Sys) → Takes now s' es (scan_events d now es s' sys').0)
    → Takes now s (e ∷ es) (act x d now e (λ s' sys'. scan_events d now es s' sys') s sys).0
act-Takes d now e es s sys deliver h ih = Takes-one now s e es _ h (ih (take_event s e) sys)
act-Takes d now e es s sys wait_once h ih =
    let (missing, new) = wait_cases now s e h in
    Takes-none now s (e ∷ es) _ (missing, inr (new, refl, refl)) refl refl refl
act-Takes d now e es s sys fill_gap h ih =
    let q = try_fill_scan d (s.rev + 1) s sys in
    let (missing, known, waits) = fill_cases now s e h in
    let early = can_skip-not_overdue now (s.rev + 1) s.skip s.skip_time waits known in
    Takes-none now s (e ∷ es) _
      (subst (λ (x : Scan). Stops now s.skip s.skip_time x.rev (e ∷ es) x.skip x.skip_time) (sym q)
        (missing, inl (known, early, refl, refl)))
      (ap (λ (x : Scan). x.rev) q) (ap (λ (x : Scan). x.sequential) q)
      (ap (λ (x : Scan). x.save_last) q)

-- The loop over the events of a round, from any state.
pub scan_events-Takes :
    (d : Config) (now : ℕ) (events : List Event) (s : Scan) (sys : Sys)
    → Takes now s events (scan_events d now events s sys).0
unfolding scan_events
scan_events-Takes d now [] s sys = Takes-none now s [] s (refl, refl) refl refl refl
scan_events-Takes d now (e ∷ es) s sys =
    act-Takes d now e es s sys (choose now s e) refl (λ s' sys'. scan_events-Takes d now es s' sys')
