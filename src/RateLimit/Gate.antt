-- ===== src/RateLimit/Gate.antt =====
-- Several buckets at once.
use b2b_app.Prelude.{
  ℕ, suc, ◌≡◌, true, false, Option, none, some, List, [], ◌∷◌, ◌++◌, Bool-cases, inl, inr,
}
use b2b_app.RateLimit.{
  Bucket, Redis, RateLimitDecision, consume_bucket, enforce_from, enforce_buckets,
}

module _ (redis : Redis) where
  open redis use {State, hmget, hmget-hmset_ne}

  -- Calls of `consumeBucket`, one bucket after the other, that are all admitted: from the n-th
  -- reading of the clock and a state to the reading and the state behind them.
  pub data Admits (clock : ℕ → ℕ) : ℕ → State → List Bucket → ℕ → State → Type 0 where
    nothing : (n : ℕ) (s : State) → Admits clock n s [] n s
    admits :
        (n m : ℕ) (s s' : State) (b : Bucket) (bs : List Bucket)
        → (consume_bucket redis b (clock n) s).0.allowed ≡ true
        → Admits clock (suc n) (consume_bucket redis b (clock n) s).1 bs m s'
        → Admits clock n s (b ∷ bs) m s'

  -- What the loop did: every bucket admitted; or those before a bucket did, and that one refused,
  -- with the decision that is returned.
  pub data IsEnforced (clock : ℕ → ℕ) (n : ℕ) (s : State)
      : List Bucket → Option RateLimitDecision → State → Type 0 where
    all_admitted :
        (bs : List Bucket) (m : ℕ) (s' : State)
        → Admits clock n s bs m s'
        → IsEnforced clock n s bs none s'
    one_refused :
        (before after : List Bucket) (b : Bucket) (m : ℕ) (s' : State)
        → Admits clock n s before m s'
        → (consume_bucket redis b (clock m) s').0.allowed ≡ false
        → IsEnforced clock n s
            (before ++ b ∷ after)
            (some (consume_bucket redis b (clock m) s').0)
            (consume_bucket redis b (clock m) s').1

  enforce_from-IsEnforced :
      (clock : ℕ → ℕ) (bs : List Bucket) (n : ℕ) (s : State)
      → IsEnforced clock n s bs
          (enforce_from redis bs clock n s).0
          (enforce_from redis bs clock n s).1
  unfolding enforce_from
  enforce_from-IsEnforced clock [] n s = IsEnforced.all_admitted [] n s (Admits.nothing n s)
  enforce_from-IsEnforced clock (b ∷ bs) n s =
      elim (Bool-cases (consume_bucket redis b (clock n) s).0.allowed) [
        | inl e ↦
            let after = (consume_bucket redis b (clock n) s).1 in
            rw e (first b e (enforce_from-IsEnforced clock bs (suc n) after))
        | inr e ↦ rw e (IsEnforced.one_refused [] bs b n s (Admits.nothing n s) e)
      ]
    where
      first :
          {xs : List Bucket} {o : Option RateLimitDecision} {t : State} (c : Bucket)
          → (consume_bucket redis c (clock n) s).0.allowed ≡ true
          → IsEnforced clock (suc n) (consume_bucket redis c (clock n) s).1 xs o t
          → IsEnforced clock n s (c ∷ xs) o t
      first c e (IsEnforced.all_admitted xs m t rest) =
          IsEnforced.all_admitted (c ∷ xs) m t (Admits.admits n m s t c xs e rest)
      first c e (IsEnforced.one_refused before after d m t rest refuses) =
          IsEnforced.one_refused (c ∷ before) after d m t (Admits.admits n m s t c before e rest)
            refuses

  -- `enforceBuckets` asks the buckets in order, each at a time of its own, and stops at the first
  -- that refuses: it answers ok only where every bucket admitted the request, and otherwise returns
  -- the decision of a bucket that refused, behind buckets that all admitted, in the state right
  -- behind that call, so that the later buckets are not asked.
  pub enforce_buckets-IsEnforced :
      (clock : ℕ → ℕ) (bs : List Bucket) (s : State)
      → IsEnforced clock 0 s bs
          (enforce_buckets redis bs clock s).0
          (enforce_buckets redis bs clock s).1
  unfolding enforce_buckets
  enforce_buckets-IsEnforced clock bs s = enforce_from-IsEnforced clock bs 0 s
