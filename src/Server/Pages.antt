-- ===== src/Server/Pages.antt =====
-- The pages of a list (pkg/kine/server/list.go), whatever the backend answers.
use k8s_dqlite.Prelude.{
  ℕ, zero, suc, ◌≤◌, ◌<◌, ◌≡◌, refl, ap, Bool, true, false, ◌&&◌, List, [], ◌∷◌, ltb, if◌then◌else◌,
  length, take, arith,
}
use k8s_dqlite.Bytes.{Bytes}
use k8s_dqlite.Results.{Result, ok, err}
use k8s_dqlite.Events.{KeyValue}
use k8s_dqlite.Exec.{Sys, M, continue, ◌>>=◌}
use k8s_dqlite.Server.Requests.{RangeRequest, RangeResponse}
use k8s_dqlite.Server.Backends.{Backend}
use k8s_dqlite.Server.Ranges.{
  list, page, probe_limit, list_prefix, trim_zeros, is_empty, count_revision,
}

-- What holds of every answer that a computation gives.
abbrev pub Answers : {A : Type 0} → (A → Type 0) → Result A → Type 0
Answers P (ok a) = P a
Answers P (err e) = Unit

bind-Answers :
    {A B : Type 0} (P : B → Type 0) (m : M A) (f : A → M B) (s : Sys)
    → ((a : A) (s' : Sys) → Answers P (f a s').0)
    → Answers P ((m >>= f) s).0
bind-Answers {A} {B} P m f s h = let (r, s') = m s in by_result r s'
  where
    by_result : (r : Result A) (s' : Sys) → Answers P (continue r f s').0
    by_result (ok a) s' = h a s'
    by_result (err e) s' = tt

if-Answers :
    {B : Type 0} (P : B → Type 0) (b : Bool) (m n : M B) (s : Sys)
    → (b ≡ true → Answers P (m s).0)
    → (b ≡ false → Answers P (n s).0)
    → Answers P ((if b then m else n) s).0
if-Answers P true m n s h k = h refl
if-Answers P false m n s h k = k refl

length-take : {A : Type 0} (n : ℕ) (xs : List A) → n < length xs → length (take n xs) ≡ n
length-take zero [] p = refl
length-take zero (x ∷ xs) p = refl
length-take (suc n) [] p = absurd (omega arith)
length-take (suc n) (x ∷ xs) p = ap suc (length-take n xs (omega arith))

-- The answer of a limited list: a full page where there is more, and no more than a page in any case.
abbrev pub IsPage : ℕ → RangeResponse → Type 0
IsPage limit response =
    (length response.kvs ≤ limit) × (response.more ≡ true → length response.kvs ≡ limit)

page-IsPage :
    (backend : Backend) (r : RangeRequest) (prefix start : Bytes) (rev : ℕ) (kvs : List KeyValue)
    (s : Sys)
    → 0 < r.limit
    → Answers (IsPage r.limit) (page backend r prefix start (rev, kvs) s).0
page-IsPage backend r prefix start rev kvs s p =
    if-Answers (IsPage r.limit) (ltb 0 (probe_limit r.limit) && ltb r.limit (length kvs)) _ _ s
      (λ h.
        bind-Answers (IsPage r.limit) (backend.count prefix start (count_revision r.revision rev)) _
          s
          (λ total s'.
            let q = length-take r.limit kvs (ground (arith, h)) in (omega (arith, q), λ m. q)))
      (λ h. (short r.limit (length kvs) p h, λ m. absurd (cc)))
  where
    short :
        (limit n : ℕ) → 0 < limit → (ltb 0 (probe_limit limit) && ltb limit n) ≡ false → n ≤ limit
    short zero n p h = absurd (omega arith)
    short (suc limit) n p h = ground arith

-- Where a limit is set, an answer has at most that many key-values, and exactly that many where it says that
-- there are more: whatever the backend answers.
pub list-IsPage :
    (backend : Backend) (r : RangeRequest) (s : Sys)
    → 0 < r.limit
    → Answers (IsPage r.limit) (list backend r s).0
unfolding list
list-IsPage backend r s p =
    if-Answers (IsPage r.limit) (is_empty r.range_end) _ _ s (λ h. tt)
      λ h.
        if-Answers (IsPage r.limit) r.count_only _ _ s
          (λ c.
            bind-Answers (IsPage r.limit)
              (backend.count (list_prefix r.range_end) (trim_zeros r.key) r.revision) _ s
              (λ total s'. (omega arith, λ m. absurd (cc))))
          (λ c.
            bind-Answers (IsPage r.limit)
              (backend.list (list_prefix r.range_end) (trim_zeros r.key) (probe_limit r.limit)
                r.revision)
              _ s
              (λ answer s'.
                page-IsPage backend r (list_prefix r.range_end) (trim_zeros r.key) answer.0 answer.1
                  s' p))
