-- ===== src/RateLimit/Window.antt =====
-- Runs of `consumeBucket` on one bucket over time, through Redis and its expiry of keys.
use b2b_app.Prelude.{
  ℕ, ◌+◌, ◌-◌, ◌*◌, ◌≤◌, ◌<◌, ◌≡◌, ◌⊎◌, inl, inr, refl, ap, sym, ◌∙◌, Bool, true, false, Option,
  none, some, List, [], ◌∷◌, arith, if◌then◌else◌, max,
}
use native.Mathlib.Nat.{mul-le-mul_right}
use native.Mathlib.Decide.{dec_lt}
use b2b_app.RateLimit.{
  token, Level, Bucket, Redis, script, decide_reply, ttl, ceil_div, consume_bucket,
}
use b2b_app.RateLimit.Bounds.{
  cost, script_budget, script_fresh_budget, script-ts, script_full, ttl_refills_early,
  script_admits_later, script_refused-lt, decide_reply-retry, retry_earns,
}

-- The times of the calls, none before the last.
abbrev pub IsTimeline : ℕ → List ℕ → Type 0
IsTimeline t [] = Unit
IsTimeline t (u ∷ us) = (t ≤ u) × IsTimeline u us

abbrev pub end_of : ℕ → List ℕ → ℕ
end_of t [] = t
end_of t (u ∷ us) = end_of u us

end_of-le : (t : ℕ) (us : List ℕ) → IsTimeline t us → t ≤ end_of t us
end_of-le t [] h = omega arith
end_of-le t (u ∷ us) (h, hs) = omega (arith, end_of-le u us hs)

one_token : (admit : Bool) → (if admit then 1 else 0) * token ≡ cost admit
one_token true = refl
one_token false = refl

elapsed_split : (u t e r : ℕ) → u ≤ t → t ≤ e → (t - u) * r + (e - t) * r ≡ (e - u) * r
elapsed_split u t e r h k =
    let split : (t - u) + (e - t) ≡ e - u = omega arith in
    omega (arith, ap (λ (x : ℕ). x * r) split)

lt_of_refill : {t : ℕ} (now later r : ℕ) → t ≡ now → token ≤ (later - now) * r → t ≤ later
lt_of_refill now later r e h = elim (dec_lt later now) [
  | yes early ↦
      let none_left : later - now ≡ 0 = omega arith in
      absurd (omega (arith, ap (λ (x : ℕ). x * r) none_left))
  | no late ↦ omega arith
]

module _ (redis : Redis) (b : Bucket) where
  open redis use {
    State, server, server_pace, hmget, hmset_expire, hmget-hmset_alive, hmget-hmset_expired,
  }

  -- How many of the calls at these times are admitted.
  unfoldable pub admitted : List ℕ → State → ℕ
  admitted [] s = 0
  admitted (t ∷ ts) s =
      let (decision, after) = consume_bucket redis b t s in
      (if decision.allowed then 1 else 0) + admitted ts after

  -- The hash reads as `l` until it expires.
  abbrev Reads : Level → State → Type 0
  Reads l s =
      (later : ℕ)
      → l.ts ≤ later
      → (hmget later b.key s ≡ some l)
        ⊎ ((hmget later b.key s ≡ none)
            × (l.ts + (ttl b.capacity b.refill_per_minute * 1000 - 1000) ≤ later))

  abbrev run_script : ℕ → Option Level → Level × Bool
  run_script t current = script b.capacity b.refill_per_minute t current

  consume-Reads :
      (t : ℕ) (s : State) → Reads (run_script t (hmget t b.key s)).0 (consume_bucket redis b t s).1
  unfolding consume_bucket
  consume-Reads t s later h =
      let T = ttl b.capacity b.refill_per_minute in
      let l = (run_script t (hmget t b.key s)).0 in
      let at : l.ts ≡ t = script-ts b.capacity b.refill_per_minute t (hmget t b.key s) in
      let pace = server_pace t later (omega arith) in
      elim (dec_lt (server later) (server t + T * 1000)) [
        | yes soon ↦ inl (hmget-hmset_alive t later T b.key l s soon)
        | no late ↦ inr (hmget-hmset_expired t later T b.key l s (omega arith), omega arith)
      ]

  Reads-script :
      (l : Level) (s : State) (t : ℕ)
      → 0 < b.refill_per_minute
      → Reads l s
      → l.ts ≤ t
      → run_script t (hmget t b.key s) ≡ run_script t (some l)
  Reads-script l s t pos reads h = elim (reads t h) [
    | inl e ↦ ap (run_script t) e
    | inr (e, late) ↦
        let C = b.capacity in
        let R = b.refill_per_minute in
        let waited : (ttl C R * 1000 - 1000) * R ≤ (t - l.ts) * R =
          mul-le-mul_right R (omega arith) in
        ap (run_script t) e
        ∙ sym (script_full C R t l (omega (arith, ttl_refills_early C R pos, waited)))
  ]

  consume-allowed :
      (t : ℕ) (s : State)
      → (consume_bucket redis b t s).0.allowed ≡ (run_script t (hmget t b.key s)).1
  unfolding consume_bucket decide_reply
  consume-allowed t s = refl

  one_token-cost :
      (t : ℕ) (s : State)
      → (if (consume_bucket redis b t s).0.allowed then 1 else 0) * token
        ≡ cost (run_script t (hmget t b.key s)).1
  one_token-cost t s = rw (consume-allowed t s) (one_token (run_script t (hmget t b.key s)).1)

  admitted_from :
      (ts : List ℕ) (u : ℕ) (l : Level) (s : State)
      → 0 < b.refill_per_minute
      → l.ts ≡ u
      → Reads l s
      → IsTimeline u ts
      → admitted ts s * token ≤ l.tokens + (end_of u ts - u) * b.refill_per_minute
  unfolding admitted
  admitted_from [] u l s pos same reads h = omega arith
  admitted_from (t ∷ ts) u l s pos same reads (h, hs) =
      let r = run_script t (hmget t b.key s) in
      let e : r ≡ run_script t (some l) = Reads-script l s t pos reads (omega arith) in
      let budget : r.0.tokens + cost r.1 ≤ l.tokens + (t - l.ts) * b.refill_per_minute =
        rw e (script_budget b.capacity b.refill_per_minute t l (omega arith)) in
      let rest =
        admitted_from ts t r.0 (consume_bucket redis b t s).1 pos
          (script-ts b.capacity b.refill_per_minute t (hmget t b.key s)) (consume-Reads t s) hs in
      omega (
        arith,
        budget,
        rest,
        one_token-cost t s,
        same,
        elapsed_split u t (end_of t ts) b.refill_per_minute h (end_of-le t ts hs),
        ap (λ (x : ℕ). (t - x) * b.refill_per_minute) same,
      )

  -- In any run of calls on a bucket that Redis does not know at first, with a positive refill rate
  -- and times that do not go back, no more calls are admitted than its capacity and what the time
  -- between the first and the last call refills.
  pub admitted-le :
      (t : ℕ) (ts : List ℕ) (s : State)
      → 0 < b.refill_per_minute
      → hmget t b.key s ≡ none
      → IsTimeline t ts
      → admitted (t ∷ ts) s * token ≤ b.capacity * token + (end_of t ts - t) * b.refill_per_minute
  unfolding admitted
  admitted-le t ts s pos fresh h =
      let r = run_script t (hmget t b.key s) in
      let e : r ≡ run_script t none = ap (run_script t) fresh in
      let budget : r.0.tokens + cost r.1 ≤ b.capacity * token =
        rw e (script_fresh_budget b.capacity b.refill_per_minute t) in
      let rest =
        admitted_from ts t r.0 (consume_bucket redis b t s).1 pos
          (script-ts b.capacity b.refill_per_minute t (hmget t b.key s)) (consume-Reads t s) h in
      omega (arith, budget, rest, one_token-cost t s)

  -- For a bucket with a positive capacity and a positive refill rate, a call after a refusal is
  -- admitted as soon as the time passed refills one token.
  pub refused_then_admitted :
      (now later : ℕ) (s : State)
      → 0 < b.capacity
      → 0 < b.refill_per_minute
      → token ≤ (later - now) * b.refill_per_minute
      → (consume_bucket redis b now s).0.allowed ≡ false
      → (consume_bucket redis b later (consume_bucket redis b now s).1).0.allowed ≡ true
  refused_then_admitted now later s c pos w refused =
      let C = b.capacity in
      let R = b.refill_per_minute in
      let l = (run_script now (hmget now b.key s)).0 in
      let after = (consume_bucket redis b now s).1 in
      let at : l.ts ≡ now = script-ts C R now (hmget now b.key s) in
      let e : run_script later (hmget later b.key after) ≡ run_script later (some l) =
        Reads-script l after later pos (consume-Reads now s) (lt_of_refill now later R at w) in
      rw (consume-allowed later after, e)
        (script_admits_later C R now later (hmget now b.key s) c w
          (sym (consume-allowed now s) ∙ refused))

  refused-retry :
      (now : ℕ) (s : State)
      → (consume_bucket redis b now s).0.allowed ≡ false
      → (consume_bucket redis b now s).0.retry_after_seconds
        ≡ ceil_div 3600000 (max b.refill_per_minute 6)
  unfolding consume_bucket
  refused-retry now s refused =
      decide_reply-retry b.refill_per_minute (run_script now (hmget now b.key s)) (
        script_refused-lt b.capacity b.refill_per_minute now (hmget now b.key s)
          (sym (consume-allowed now s) ∙ refused))

  -- For a bucket with a positive capacity and a positive refill rate, the window that a refusal
  -- announces is long enough: a call at its end is admitted.
  pub retry_suffices :
      (now : ℕ) (s : State)
      → 0 < b.capacity
      → 0 < b.refill_per_minute
      → (consume_bucket redis b now s).0.allowed ≡ false
      → (consume_bucket redis b
          (now + (consume_bucket redis b now s).0.retry_after_seconds * 1000)
          (consume_bucket redis b now s).1).0.allowed
        ≡ true
  retry_suffices now s c pos refused =
      let R = b.refill_per_minute in
      let wait = (consume_bucket redis b now s).0.retry_after_seconds in
      let earns : 600 * token ≤ wait * 1000 * R =
        rw (refused-retry now s refused) ((retry_earns R pos).0) in
      let shift : now + wait * 1000 - now ≡ wait * 1000 = omega arith in
      refused_then_admitted now (now + wait * 1000) s c pos
        (omega (arith, earns, ap (λ (x : ℕ). x * R) shift)) refused

  -- It is also some 60000 times too long: with a refill of at least 6 tokens a minute, 60000 tokens
  -- are refilled within the announced window, where one would do.
  pub retry_overshoots :
      (now : ℕ) (s : State)
      → 6 ≤ b.refill_per_minute
      → (consume_bucket redis b now s).0.allowed ≡ false
      → 60000 * token
        ≤ (consume_bucket redis b now s).0.retry_after_seconds * 1000 * b.refill_per_minute
  retry_overshoots now s fast refused =
      rw (refused-retry now s refused) ((retry_earns b.refill_per_minute (omega arith)).1 fast)
