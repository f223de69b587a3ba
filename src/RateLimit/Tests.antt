-- ===== src/RateLimit/Tests.antt =====
-- A store in memory with keys that expire, and the limiter's theorems at concrete buckets.
use b2b_app.Prelude.{
  ℕ, ◌+◌, ◌-◌, ◌*◌, ◌≤◌, ◌<◌, ◌≡◌, ◌≢◌, refl, true, false, Option, none, some, [], ◌∷◌, arith, ltb,
  if◌then◌else◌, String, str_eq, eq_iff, eq_refl,
}
use b2b_app.RateLimit.{
  token, Level, Bucket, Redis, script, consume_bucket, enforce_buckets, decide_reply, ttl, refilled,
}
use b2b_app.RateLimit.Bounds.{script_after_ttl}
use b2b_app.RateLimit.Gate.{IsEnforced, enforce_buckets-IsEnforced}
use b2b_app.RateLimit.Window.{
  admitted, admitted-le, end_of, refused_then_admitted, retry_suffices, retry_overshoots,
}

abbrev Memory : Type 0
Memory = String → Option (Level × ℕ)

abbrev read : ℕ → Option (Level × ℕ) → Option Level
read now none = none
read now (some (l, dies)) = if ltb now dies then some l else none

abbrev write : ℕ → String → Level → ℕ → Memory → Memory
write now k l seconds s j = if str_eq k j then some (l, now + seconds * 1000) else s j

write_alive :
    (now later seconds : ℕ) (k : String) (l : Level) (s : Memory)
    → later < now + seconds * 1000
    → read later (write now k l seconds s k) ≡ some l
write_alive now later seconds k l s h = ground (arith, eq_refl k)

write_expired :
    (now later seconds : ℕ) (k : String) (l : Level) (s : Memory)
    → now + seconds * 1000 ≤ later
    → read later (write now k l seconds s k) ≡ none
write_expired now later seconds k l s h = ground (arith, eq_refl k)

write_ne :
    (now later seconds : ℕ) (k j : String) (l : Level) (s : Memory)
    → k ≢ j
    → read later (write now k l seconds s j) ≡ read later (s j)
write_ne now later seconds k j l s h = ground (arith, eq_iff k j)

-- The server's clock is half a second ahead of the caller's.
abbrev server : ℕ → ℕ
server now = now + 500

abbrev memory : Redis
memory = record {
  State = Memory;
  server = server;
  hmget = λ now k s. read (server now) (s k);
  hmset_expire = λ now k l ttl s. write (server now) k l ttl s;
  server_pace = λ now later h. omega arith;
  hmget-hmset_alive = λ now later ttl k l s h. write_alive (server now) (server later) ttl k l s h;
  hmget-hmset_expired =
      λ now later ttl k l s h. write_expired (server now) (server later) ttl k l s h;
  hmget-hmset_ne = λ now later ttl k j l s h. write_ne (server now) (server later) ttl k j l s h;
}

abbrev empty : Memory
empty k = none

-- The bucket of the login route for one address, and a tight one.
abbrev login_bucket : Bucket
login_bucket = record { key = "rl:auth:ip:10.0.0.1"; capacity = 20; refill_per_minute = 10 }

abbrev tight : Bucket
tight = record { key = "rl:tight"; capacity = 1; refill_per_minute = 10 }

tight_twice : admitted memory tight (0 ∷ 1000 ∷ 6000 ∷ []) empty ≡ 2
unfolding admitted consume_bucket decide_reply script refilled ttl
tight_twice = refl

admitted-le_example :
    admitted memory tight (0 ∷ 1000 ∷ 6000 ∷ []) empty * token
    ≤ tight.capacity * token + (end_of 0 (1000 ∷ 6000 ∷ []) - 0) * tight.refill_per_minute
admitted-le_example =
    admitted-le memory tight 0 (1000 ∷ 6000 ∷ []) empty (omega arith) refl (omega arith)

abbrev drained : Memory
drained = write 0 "rl:tight" (record { tokens = 0; ts = 0 }) 60001 empty

drained_refuses : (consume_bucket memory tight 1000 drained).0.allowed ≡ false
unfolding consume_bucket decide_reply script refilled ttl
drained_refuses = refl

retry_suffices_example :
    (consume_bucket memory tight
      (1000 + (consume_bucket memory tight 1000 drained).0.retry_after_seconds * 1000)
      (consume_bucket memory tight 1000 drained).1).0.allowed
    ≡ true
retry_suffices_example =
    retry_suffices memory tight 1000 drained (omega arith) (omega arith) drained_refuses

refused_then_admitted_example :
    (consume_bucket memory tight 7000 (consume_bucket memory tight 1000 drained).1).0.allowed ≡ true
refused_then_admitted_example =
    refused_then_admitted memory tight 1000 7000 drained (omega arith) (omega arith) (omega arith)
      drained_refuses

retry_overshoots_example :
    60000 * token
    ≤ (consume_bucket memory tight 1000 drained).0.retry_after_seconds
      * 1000
      * tight.refill_per_minute
retry_overshoots_example = retry_overshoots memory tight 1000 drained (omega arith) drained_refuses

-- The second bucket refuses, and the third is not asked.
enforce_buckets-IsEnforced_example :
    IsEnforced memory
      (λ n. 1000 + n)
      0
      drained
      (login_bucket ∷ tight ∷ login_bucket ∷ [])
      (enforce_buckets memory (login_bucket ∷ tight ∷ login_bucket ∷ []) (λ n. 1000 + n) drained).0
      (enforce_buckets memory (login_bucket ∷ tight ∷ login_bucket ∷ []) (λ n. 1000 + n) drained).1
enforce_buckets-IsEnforced_example =
    enforce_buckets-IsEnforced memory (λ n. 1000 + n) (login_bucket ∷ tight ∷ login_bucket ∷ [])
      drained

script_after_ttl_example :
    script 1 10 99999999 (some (record { tokens = 0; ts = 0 })) ≡ script 1 10 99999999 none
unfolding ttl
script_after_ttl_example =
    script_after_ttl 1 10 99999999 (record { tokens = 0; ts = 0 }) (omega arith) (omega arith)
