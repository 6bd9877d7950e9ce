-- ===== src/Redis.antt =====
-- backend/app/redis.py: the counter of the rate limits. The server's commands are parameters, and
-- so is the type of its states.
use jeeves.Common.{ℕ, ◌+◌, ◌≡◌, ◌≢◌, Option, none, String}
use jeeves.Json.{ℤ, Json}

pub record Redis (R : Type 0) : Type 0 where
  -- INCR: the new count
  pub incr : R → String → R × ℕ
  -- EXPIRE key seconds NX
  pub expire_nx : R → String → ℕ → R
  -- TTL
  pub ttl : R → String → ℤ
  -- SET key value EX seconds, of the JSON that `json.dumps` writes
  pub set_ex : R → String → Json → ℕ → R
  -- GETDEL, of the JSON that `json.loads` reads
  pub getdel : R → String → R × Option Json

module _ {R : Type 0} (redis : Redis R) where
  unfoldable pub increment_in_window : R → String → ℕ → R × ℕ
  increment_in_window r key window_seconds =
      let counted = redis.incr r key in (redis.expire_nx counted.0 key window_seconds, counted.1)

-- What the commands do to the counter at a key while no window ends.
pub record IsCounting {R : Type 0} (redis : Redis R) : Type 0 where
  pub count : R → String → ℕ
  pub incr_count : (r : R) (key : String) → (redis.incr r key).1 ≡ count r key + 1
  pub incr_same : (r : R) (key : String) → count (redis.incr r key).0 key ≡ count r key + 1
  pub incr_other :
      (r : R) (key other : String) → other ≢ key → count (redis.incr r key).0 other ≡ count r other
  pub expire_nx_count :
      (r : R) (key other : String) (seconds : ℕ)
      → count (redis.expire_nx r key seconds) other ≡ count r other

-- What the commands do to the value at a key: GETDEL returns it once.
pub record IsGetdel {R : Type 0} (redis : Redis R) : Type 0 where
  pub value : R → String → Option Json
  pub getdel_value : (r : R) (key : String) → (redis.getdel r key).1 ≡ value r key
  pub getdel_same : (r : R) (key : String) → value (redis.getdel r key).0 key ≡ none
