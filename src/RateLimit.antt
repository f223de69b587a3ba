-- ===== src/RateLimit.antt =====
-- lib/ratelimit.ts: token buckets. A token is counted in units of 1/60000, so that a refill of
-- `refillPerMinute / 60_000` tokens per millisecond is `refillPerMinute` units, and every value
-- of the script is a whole number. Rounding of the floats is not modelled.
mod Bounds
pub mod Window
pub mod Gate
mod Tests
use Prim.Native.String
use b2b_app.Prelude.{
  ℕ, suc, ◌+◌, ◌-◌, ◌*◌, ◌/◌, ◌≤◌, ◌<◌, min, max, String, ◌≡◌, ◌≢◌, Bool, true, false, Option, none,
  some, leb, ltb, if◌then◌else◌, List, [], ◌∷◌,
}

-- One token.
abbrev pub token : ℕ
token = 60000

-- The fields `tokens` and `ts` of a bucket's hash.
pub record Level : Type 0 where
  pub tokens : ℕ
  pub ts : ℕ

pub record Bucket : Type 0 where
  pub key : String
  pub capacity : ℕ
  pub refill_per_minute : ℕ

pub record RateLimitDecision : Type 0 where
  pub allowed : Bool
  pub remaining : ℕ
  pub retry_after_seconds : ℕ

-- What the environment sets.
pub record Env : Type 0 where
  pub ip_capacity : ℕ
  pub ip_refill : ℕ
  pub org_capacity : ℕ
  pub org_refill : ℕ
  pub webhook_capacity : ℕ
  pub webhook_refill : ℕ

-- ceil(a / b), for a positive b.
abbrev pub ceil_div : ℕ → ℕ → ℕ
ceil_div a b = (a + (b - 1)) / b

-- `tokens == nil`: a missing hash counts as a full bucket, filled now.
abbrev pub stored : ℕ → ℕ → Option Level → Level
stored capacity now none = record { tokens = capacity * token; ts = now }
stored capacity now (some l) = l

-- math.min(capacity, tokens + elapsed * refillPerSec)
unfoldable pub refilled : ℕ → ℕ → ℕ → Option Level → ℕ
refilled capacity refill now current =
    min (capacity * token)
      ((stored capacity now current).tokens + (now - (stored capacity now current).ts) * refill)

-- The Lua script: the new hash and whether a token was consumed.
unfoldable pub script : ℕ → ℕ → ℕ → Option Level → Level × Bool
script capacity refill now current =
    let full = refilled capacity refill now current in
    if leb token full
    then (record { tokens = full - token; ts = now }, true)
    else (record { tokens = full; ts = now }, false)

-- The seconds after which Redis drops the hash: `ceil(capacity / max(refillPerSec, 0.0001)) + 1`.
unfoldable pub ttl : ℕ → ℕ → ℕ
ttl capacity refill = ceil_div (capacity * token) (max refill 6) + 1

-- What `consumeBucket` makes of the script's reply.
unfoldable pub decide_reply : ℕ → Level × Bool → RateLimitDecision
decide_reply refill (l, allowed) =
    let remaining = l.tokens / token in
    record {
      allowed = allowed;
      remaining = remaining;
      retry_after_seconds = if ltb 0 remaining then 0 else ceil_div 3600000 (max refill 6);
    }

pub ip_bucket : Env → String → Bucket
ip_bucket env ip = record {
  key = String.◌++◌ "rl:ip:" ip;
  capacity = env.ip_capacity;
  refill_per_minute = env.ip_refill;
}

-- The scope follows the organization's id.
pub tenant_bucket : Env → String → String → Bucket
tenant_bucket env org scope = record {
  key = String.◌++◌ "rl:org:" (String.◌++◌ org (String.◌++◌ ":" scope));
  capacity = env.org_capacity;
  refill_per_minute = env.org_refill;
}

pub webhook_bucket : Env → String → Bucket
webhook_bucket env slug = record {
  key = String.◌++◌ "rl:webhook:" slug;
  capacity = env.webhook_capacity;
  refill_per_minute = env.webhook_refill;
}

-- Redis as far as the limiter uses it: a hash per key, read and written whole in a script. Times are
-- milliseconds of the caller's clock, as `Date.now()` gives them for a call; `server` is the time of
-- the server, by which keys expire, when the script of that call runs. The two clocks may differ, but
-- between two calls the server's does not gain more than a second on the caller's.
pub record Redis : Type 1 where
  pub State : Type 0
  pub server : ℕ → ℕ
  pub hmget : ℕ → String → State → Option Level
  pub hmset_expire : ℕ → String → Level → ℕ → State → State
  pub server_pace : (now later : ℕ) → now ≤ later → server later ≤ server now + (later - now) + 1000
  pub hmget-hmset_alive :
      (now later ttl : ℕ) (k : String) (l : Level) (s : State)
      → server later < server now + ttl * 1000
      → hmget later k (hmset_expire now k l ttl s) ≡ some l
  pub hmget-hmset_expired :
      (now later ttl : ℕ) (k : String) (l : Level) (s : State)
      → server now + ttl * 1000 ≤ server later
      → hmget later k (hmset_expire now k l ttl s) ≡ none
  pub hmget-hmset_ne :
      (now later ttl : ℕ) (k j : String) (l : Level) (s : State)
      → k ≢ j
      → hmget later j (hmset_expire now k l ttl s) ≡ hmget later j s

module _ (redis : Redis) where
  open redis use {State, hmget, hmset_expire}

  unfoldable pub consume_bucket : Bucket → ℕ → State → RateLimitDecision × State
  consume_bucket b now s =
      let reply = script b.capacity b.refill_per_minute now (hmget now b.key s) in
      (
        decide_reply b.refill_per_minute reply,
        hmset_expire now b.key reply.0 (ttl b.capacity b.refill_per_minute) s,
      )

  -- The first bucket that refuses ends the loop; `none` stands for `{ ok: true }`. Each call reads
  -- the clock anew, and `clock n` is the n-th reading.
  unfoldable pub enforce_from : List Bucket → (ℕ → ℕ) → ℕ → State → Option RateLimitDecision × State
  enforce_from [] clock n s = (none, s)
  enforce_from (b ∷ bs) clock n s =
      let (decision, after) = consume_bucket b (clock n) s in
      let rest = enforce_from bs clock (suc n) after in
      if decision.allowed then rest else (some decision, after)

  -- enforceBuckets
  unfoldable pub enforce_buckets : List Bucket → (ℕ → ℕ) → State → Option RateLimitDecision × State
  enforce_buckets bs clock s = enforce_from bs clock 0 s
