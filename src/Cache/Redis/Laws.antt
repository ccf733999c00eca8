-- ===== src/Cache/Redis/Laws.antt =====
-- What the store relies on of Redis and its client, each as Redis documents it.
use text.Mathlib.Text.{◌==◌ as str_eq}
use investor_cache.Base.{
  String, List, [], ◌∷◌, Option, none, some, ℕ, ◌<◌, ◌≤◌, ◌^◌, ◌≡◌, ◌≢◌, ℤ, pos, pos_part, neg_part,
  leb_ℤ, if◌then◌else◌,
}
use investor_cache.Go.{ok}
use investor_cache.Go.Strconv.{format_int}
use investor_cache.Cache.Redis.{Server, Client, Script}

abbrev pub or_else {ℓ} : {A : Type ℓ} → Option A → Option A → Option A
or_else none o = o
or_else (some a) o = some a

-- The value that a flat list of fields and values gives to a field: the last one.
abbrev pub flat_lookup : String → List String → Option String
flat_lookup f [] = none
flat_lookup f (k ∷ []) = none
flat_lookup f (k ∷ v ∷ rest) = or_else (flat_lookup f rest) (if str_eq k f then some v else none)

-- `m[f]` of a Go map, as an option.
abbrev pub entry_lookup : String → List (String × String) → Option String
entry_lookup f [] = none
entry_lookup f ((k, v) ∷ m) = if str_eq k f then some v else entry_lookup f m

-- The integers that a double represents with all their neighbours.
abbrev pub IsExact : ℤ → Type 0
IsExact i = (pos_part i ≤ 2 ^ 53) × (neg_part i ≤ 2 ^ 53)

pub record ServerLaws {S N : Type 0} (s : Server S N) : Type 0 where
  -- HSET gives the listed fields their values, and changes no other field and no other key.
  pub hset_self :
      (key f : String) (args : List String) (st : S)
      → s.hget key f (s.hset key args st) ≡ or_else (flat_lookup f args) (s.hget key f st)
  pub hset_ne :
      (key key' f : String) (args : List String) (st : S)
      → key ≢ key'
      → s.hget key' f (s.hset key args st) ≡ s.hget key' f st
  -- Lua's numbers are doubles: the decimal print of an exact integer reads as a number, and exact
  -- integers compare as integers.
  pub number : ℤ → N
  pub tonumber_exact : (i : ℤ) → IsExact i → s.tonumber (format_int i) ≡ some (number i)
  pub ge_exact : (i j : ℤ) → IsExact i → IsExact j → s.num_ge (number i) (number j) ≡ leb_ℤ j i
  -- EXPIRE with a positive time keeps every field for now.
  pub expire_positive :
      (key key' f : String) (n : ℕ) (st : S)
      → 0 < n
      → IsExact (pos n)
      → s.hget key' f (s.expire key (number (pos n)) st) ≡ s.hget key' f st

-- `view` is the server's state; an answer without an error is that of the server, and a request that
-- fails may or may not have reached it. What other clients do between two calls is a change of the
-- world outside these calls.
pub record ClientLaws {W S N : Type 0} (s : Server S N) (c : Client W S) : Type 0 where
  pub view : W → S
  pub hgetall_lem :
      (key : String) (w : W) {m : List (String × String)}
      → (c.hgetall key w).0 ≡ ok m
      → (f : String) → entry_lookup f m ≡ s.hget key f (view w)
  pub run_script_lem :
      (script : Script S) (key : String) (args : List String) (w : W) {r : ℤ}
      → (c.run_script script key args w).0 ≡ ok r
      → ((script key args (view w)).0 ≡ ok r)
        × (view (c.run_script script key args w).1 ≡ (script key args (view w)).1)
