-- ===== src/Cache/Redis.antt =====
-- Redis and its Go client, which the repository only calls: the operations are parameters, and
-- their documented behaviour is the record of hypotheses in `Redis/Laws`.
pub mod Laws
pub mod Memory
use investor_cache.Base.{String, Bool, List, Option, ℤ}
use investor_cache.Go.{Result}

-- What a Lua script finds on the server: `S` is the server's state and `N` Lua's numbers.
pub record Server (S N : Type 0) : Type 0 where
  -- `redis.call('HGET', key, field)`; `none` is Lua's `false`.
  pub hget : String → String → S → Option String
  -- `redis.call('HSET', key, …)` with its flat list of fields and values.
  pub hset : String → List String → S → S
  -- `redis.call('EXPIRE', key, seconds)`
  pub expire : String → N → S → S
  -- Lua's `tonumber`; `none` is `nil`.
  pub tonumber : String → Option N
  -- Lua's `a >= b`.
  pub num_ge : N → N → Bool

abbrev pub Script : Type 0 → Type 0
Script S = String → List String → S → Result ℤ × S

-- The cluster client, over the world `W`.
pub record Client (W S : Type 0) : Type 0 where
  -- `HGetAll(ctx, key).Result()`, the map as a list of its entries.
  pub hgetall : String → W → Result (List (String × String)) × W
  -- `script.Run(ctx, client, []string{key}, args...).Int64()`
  pub run_script : Script S → String → List String → W → Result ℤ × W
  -- `Del(ctx, key).Err()`
  pub del : String → W → Result (Unit {0}) × W
  -- `Del` of each key on a pipeline, then `Exec`.
  pub pipeline_del : List String → W → Result (Unit {0}) × W
