-- ===== src/Broadcaster.antt =====
-- Fan-out of the polled batches (pkg/kine/broadcaster/broadcaster.go). A subscriber is a buffered
-- channel; what it has not yet read is its buffer. The lock makes each operation one step.
pub mod Delivery
use k8s_dqlite.Prelude.{
  ℕ, suc, ◌+◌, Bool, true, false, not, List, [], ◌∷◌, ◌++◌, ltb, ◌==◌, if◌then◌else◌, filter,
  length, any,
}

abbrev pub buffer_size : ℕ
buffer_size = 100

module _ {ℓ} (A : Type ℓ) where
  pub record Sub : Type ℓ where
    pub id : ℕ
    pub buffer : List A

  -- `subs`, the channels that are open, and how many were made.
  pub record Broadcaster : Type ℓ where
    pub running : Bool
    pub subs : List (Sub)
    pub made : ℕ

module _ {ℓ} {A : Type ℓ} where
  abbrev pub empty : Broadcaster A
  empty = record { running = false; subs = []; made = 0 }

  unfoldable pub subscribe : Broadcaster A → ℕ × Broadcaster A
  subscribe b =
      (b.made, record b { subs = record { id = b.made; buffer = [] } ∷ b.subs; made = suc b.made })

  -- Closes the channel and forgets it; nothing happens where it is closed already.
  unfoldable pub unsub : ℕ → Broadcaster A → Broadcaster A
  unsub id b = record b { subs = filter (λ s. not (s.id == id)) b.subs }

  abbrev pub has_room : Sub A → Bool
  has_room s = ltb (length s.buffer) buffer_size

  abbrev pub send : A → Sub A → Sub A
  send item s = record s { buffer = s.buffer ++ item ∷ [] }

  abbrev pub offer : A → List (Sub A) → List (Sub A)
  offer item [] = []
  offer item (s ∷ ss) = let rest = offer item ss in if has_room s then send item s ∷ rest else rest

  -- A subscriber whose buffer is full is dropped.
  unfoldable pub publish : A → Broadcaster A → Broadcaster A
  publish item b = record b { subs = offer item b.subs }

  -- `stream`: publish every item, then close every subscriber.
  unfoldable pub stream : List A → Broadcaster A → Broadcaster A
  unfolding publish
  stream [] b = record b { subs = []; running = false }
  stream (item ∷ rest) b = stream rest (publish item b)

  abbrev pub read_sub : Sub A → Sub A
  read_sub s = record s { buffer = elim s.buffer [ [] ↦ [] | x ∷ rest ↦ rest ] }

  abbrev pub read_subs : ℕ → List (Sub A) → List (Sub A)
  read_subs id [] = []
  read_subs id (s ∷ ss) = (if s.id == id then read_sub s else s) ∷ read_subs id ss

  -- The reader of a channel takes the item at its head.
  unfoldable pub read : ℕ → Broadcaster A → Broadcaster A
  read id b = record b { subs = read_subs id b.subs }
