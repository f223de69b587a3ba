-- ===== src/RateLimit/Bounds.antt =====
-- One run of the bucket script: bounds on the level, refills, and the time to live of the hash.
use native.Mathlib.Nat.{mul-le-mul_left, mul-le-mul_right}
use b2b_app.Prelude.{
  ℕ, ◌+◌, ◌-◌, ◌*◌, ◌≤◌, ◌<◌, max, ◌≡◌, Bool, true, false, Option, none, some, arith, ap,
}
use b2b_app.RateLimit.{token, Level, refilled, script, ttl, ceil_div, decide_reply}

-- At no time does a bucket hold more tokens than its capacity.
pub script-le_capacity :
    (capacity refill now : ℕ) (current : Option Level)
    → (script capacity refill now current).0.tokens ≤ capacity * token
unfolding script refilled
script-le_capacity capacity refill now current = ground arith

-- What a run consumes, in units.
abbrev pub cost : Bool → ℕ
cost true = token
cost false = 0

pub script_budget :
    (capacity refill now : ℕ) (l : Level)
    → l.ts ≤ now
    → (script capacity refill now (some l)).0.tokens + cost (script capacity refill now (some l)).1
      ≤ l.tokens + (now - l.ts) * refill
unfolding script refilled
script_budget capacity refill now l h = ground arith

pub script_fresh_budget :
    (capacity refill now : ℕ)
    → (script capacity refill now none).0.tokens + cost (script capacity refill now none).1
      ≤ capacity * token
unfolding script refilled
script_fresh_budget capacity refill now = ground arith

pub script-ts :
    (capacity refill now : ℕ) (current : Option Level)
    → (script capacity refill now current).0.ts ≡ now
unfolding script
script-ts capacity refill now current = ground arith

pub le_ceil_div_mul : (a b : ℕ) → 0 < b → a ≤ ceil_div a b * b
le_ceil_div_mul a b h = grind arith

pub ttl_refills :
    (capacity refill : ℕ) → 0 < refill → capacity * token ≤ ttl capacity refill * 1000 * refill
unfolding ttl
ttl_refills capacity refill h =
    let m = max refill 6 in
    let q = ceil_div (capacity * token) m in
    let filled : capacity * token ≤ q * m = le_ceil_div_mul (capacity * token) m (omega arith) in
    let wide : q * m ≤ q * (6 * refill) = mul-le-mul_left q (omega arith) in
    omega (arith, filled, wide)

-- The time to live is at least a second longer than the bucket takes to fill.
pub ttl_refills_early :
    (capacity refill : ℕ)
    → 0 < refill
    → capacity * token ≤ (ttl capacity refill * 1000 - 1000) * refill
unfolding ttl
ttl_refills_early capacity refill h =
    let m = max refill 6 in
    let q = ceil_div (capacity * token) m in
    let filled : capacity * token ≤ q * m = le_ceil_div_mul (capacity * token) m (omega arith) in
    let wide : q * m ≤ q * (6 * refill) = mul-le-mul_left q (omega arith) in
    let short : (q + 1) * 1000 - 1000 ≡ q * 1000 = omega arith in
    omega (arith, filled, wide, ap (λ (x : ℕ). x * refill) short)

-- A hash whose bucket has had the time to fill: the script decides the same with and without it.
pub script_full :
    (capacity refill now : ℕ) (l : Level)
    → capacity * token ≤ (now - l.ts) * refill
    → script capacity refill now (some l) ≡ script capacity refill now none
unfolding script refilled
script_full capacity refill now l waited = ground (arith, waited)

-- A hash that Redis has dropped at the end of its time to live would have been full again: with a
-- positive refill rate the script decides the same with and without it.
pub script_after_ttl :
    (capacity refill now : ℕ) (l : Level)
    → 0 < refill
    → l.ts + ttl capacity refill * 1000 ≤ now
    → script capacity refill now (some l) ≡ script capacity refill now none
unfolding script refilled
script_after_ttl capacity refill now l h late =
    let T = ttl capacity refill in
    let waited : T * 1000 * refill ≤ (now - l.ts) * refill =
      mul-le-mul_right refill (omega arith) in
    ground (arith, ttl_refills capacity refill h, waited)

-- After a refusal the next call is admitted as soon as the time passed is worth a token.
pub script_admits_later :
    (capacity refill now later : ℕ) (current : Option Level)
    → 1 ≤ capacity
    → token ≤ (later - now) * refill
    → (script capacity refill now current).1 ≡ false
    → (script capacity refill later (some (script capacity refill now current).0)).1 ≡ true
unfolding script refilled
script_admits_later capacity refill now later current c w e = ground arith

pub script_refused-lt :
    (capacity refill now : ℕ) (current : Option Level)
    → (script capacity refill now current).1 ≡ false
    → (script capacity refill now current).0.tokens < token
unfolding script refilled
script_refused-lt capacity refill now current e = ground arith

pub decide_reply-retry :
    (refill : ℕ) (reply : Level × Bool)
    → reply.0.tokens < token
    → (decide_reply refill reply).retry_after_seconds ≡ ceil_div 3600000 (max refill 6)
unfolding decide_reply
decide_reply-retry refill (l, allowed) h = ground arith

pub retry_earns :
    (refill : ℕ)
    → 0 < refill
    → (600 * token ≤ ceil_div 3600000 (max refill 6) * 1000 * refill)
      × (6 ≤ refill → 60000 * token ≤ ceil_div 3600000 (max refill 6) * 1000 * refill)
retry_earns refill h =
    let m = max refill 6 in
    let q = ceil_div 3600000 m in
    let filled : 3600000 ≤ q * m = le_ceil_div_mul 3600000 m (omega arith) in
    let wide : q * m ≤ q * (6 * refill) = mul-le-mul_left q (omega arith) in
    (
      omega (arith, filled, wide),
      λ fast.
          let same : m ≡ refill = omega arith in omega (arith, filled, ap (λ (x : ℕ). q * x) same),
    )
