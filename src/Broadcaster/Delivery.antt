-- ===== src/Broadcaster/Delivery.antt =====
-- What a subscriber is given (pkg/kine/broadcaster/broadcaster.go).
use k8s_dqlite.Prelude.{
  Bool, false, if◌then◌else◌, ◌∙◌, suc, ◌+◌, ◌≤◌, ◌≡◌, refl, ap, sym, inl, inr, true, List, [], ◌∷◌,
  ◌++◌, length, In, arith, Bool-cases, subst,
}
use mathlib.Core.List.{append-nil, append_assoc}
use k8s_dqlite.Broadcaster.{Sub, Broadcaster, buffer_size, has_room, send, offer, publish}

module _ {A : Type 0} where
  -- The batches are published one after the other.
  unfoldable pub publish_all : List A → Broadcaster A → Broadcaster A
  unfolding publish
  publish_all [] b = b
  publish_all (item ∷ rest) b = publish_all rest (publish item b)

  abbrev pub with_items : Sub A → List A → Sub A
  with_items s items = record s { buffer = s.buffer ++ items }

  offered :
      (item : A) (s : Sub A) (subs : List (Sub A))
      → In s subs
      → has_room s ≡ true
      → In (send item s) (offer item subs)
  offered item s [] m h = absurd m
  offered item s (x ∷ xs) (inl e) h = rw (← e, h) (inl refl)
  offered item s (x ∷ xs) (inr m) h = elim (Bool-cases (has_room x)) [
    | inl t ↦ rw t (inr (offered item s xs m h))
    | inr f ↦ rw f (offered item s xs m h)
  ]

  length-send : (xs : List A) (x : A) → length (xs ++ x ∷ []) ≡ suc (length xs)
  length-send [] x = refl
  length-send (y ∷ ys) x = ap suc (length-send ys x)

  -- A subscriber whose buffer has room for all the items that are published gets every one of them, behind
  -- what its buffer holds and in their order.
  pub publish_all_delivers :
      (items : List A) (b : Broadcaster A) (s : Sub A)
      → In s b.subs
      → length s.buffer + length items ≤ buffer_size
      → In (with_items s items) (publish_all items b).subs
  unfolding publish_all publish
  publish_all_delivers [] b s m p =
      subst (λ (x : List A). In (record s { buffer = x }) b.subs) (sym (append-nil s.buffer)) m
  publish_all_delivers (item ∷ rest) b s m p =
      let n = length-send s.buffer item in
      let i = offered item s b.subs m (ground arith) in
      subst (λ (x : List A). In (record s { buffer = x }) (publish_all rest (publish item b)).subs)
        (append_assoc s.buffer (item ∷ []) rest)
        (publish_all_delivers rest (publish item b) (send item s) i (omega (arith, p, n)))

  -- Where an open channel of the second state comes from.
  pub record Origin (items : List A) (subs : List (Sub A)) (u : Sub A) : Type 0 where
    pub sub : Sub A
    pub member : In sub subs
    pub all : u ≡ with_items sub items

  offer_from :
      (item : A) (subs : List (Sub A)) (u : Sub A)
      → In u (offer item subs)
      → Origin (item ∷ []) subs u
  offer_from item [] u m = absurd m
  offer_from item (x ∷ xs) u m = by_room (has_room x) (λ i. offer_from item xs u i) m
    where
      behind : Origin (item ∷ []) xs u → Origin (item ∷ []) (x ∷ xs) u
      behind o = record { sub = o.sub; member = inr o.member; all = o.all }

      by_room :
          (b : Bool)
          → (In u (offer item xs) → Origin (item ∷ []) xs u)
          → In u (if b then send item x ∷ offer item xs else offer item xs)
          → Origin (item ∷ []) (x ∷ xs) u
      by_room true further (inl e) = record { sub = x; member = inl refl; all = e }
      by_room true further (inr i) = behind (further i)
      by_room false further i = behind (further i)

  -- A subscriber that is still open after the items were published was open before, and its buffer has got
  -- every one of them, in their order: none is ever left out.
  pub publish_all-Origin :
      (items : List A) (b : Broadcaster A) (u : Sub A)
      → In u (publish_all items b).subs
      → Origin items b.subs u
  unfolding publish_all publish
  publish_all-Origin [] b u m = record {
    sub = u;
    member = m;
    all = ap (λ (x : List A). record u { buffer = x }) (sym (append-nil u.buffer));
  }
  publish_all-Origin (item ∷ rest) b u m =
      let later = publish_all-Origin rest (publish item b) u m in
      let now = offer_from item b.subs later.sub later.member in
      record {
        sub = now.sub;
        member = now.member;
        all =
            later.all
            ∙ ap (λ (s : Sub A). with_items s rest) now.all
            ∙ ap (λ (x : List A). record now.sub { buffer = x })
                (append_assoc now.sub.buffer (item ∷ []) rest);
      }
