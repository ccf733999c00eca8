-- ===== src/Cache/Redis/Memory.antt =====
-- A server in memory and a client that always reaches it: the hypotheses of `Laws` can be met.
use text.Mathlib.Text.{◌==◌ as str_eq}
use text.Mathlib.TextPositions.{eq_refl}
use text.Mathlib.TextEquality.{eq_iff}
use investor_cache.Base.{
  String, Bool, true, false, List, [], ◌∷◌, Option, none, some, ◌≡◌, ◌≢◌, refl, arith, ℤ, pos,
  ltb_ℤ, leb_ℤ, ℕ, ◌<◌, if◌then◌else◌, ◌&&◌,
}
use investor_cache.Go.{Result, ok, err}
use investor_cache.Go.Strconv.{format_int, parse_int}
use investor_cache.Go.Strconv.RoundTrip.{parse_int-format_int}
use investor_cache.Cache.Redis.{Server, Client}
use investor_cache.Cache.Redis.Laws.{
  ServerLaws, ClientLaws, IsExact, or_else, flat_lookup, entry_lookup,
}

-- The newest entry of a key and a field holds.
abbrev pub Store : Type 0
Store = List (String × String × String)

abbrev pub find : String → String → Store → Option String
find key f [] = none
find key f ((k, g, v) ∷ st) = if str_eq k key && str_eq g f then some v else find key f st

abbrev pub put : String → List String → Store → Store
put key [] st = st
put key (f ∷ []) st = st
put key (f ∷ v ∷ rest) st = put key rest ((key, f, v) ∷ st)

abbrev pub remove : String → Store → Store
remove key [] = []
remove key ((k, f, v) ∷ st) = if str_eq k key then remove key st else (k, f, v) ∷ remove key st

abbrev pub entries : String → Store → List (String × String)
entries key [] = []
entries key ((k, f, v) ∷ st) = if str_eq k key then (f, v) ∷ entries key st else entries key st

abbrev pub to_option : {A : Type 0} → Result A → Option A
to_option (ok a) = some a
to_option (err _) = none

abbrev pub memory : Server Store ℤ
memory = record {
  hget = find;
  hset = put;
  expire = λ key n st. if ltb_ℤ (pos 0) n then st else remove key st;
  tonumber = λ s. to_option (parse_int s);
  num_ge = λ a b. leb_ℤ b a;
}

or_else-if :
    (l x : Option String) (b : Bool) (v : String)
    → or_else l (if b then some v else x) ≡ or_else (or_else l (if b then some v else none)) x
or_else-if none x true v = refl
or_else-if none x false v = refl
or_else-if (some u) x b v = refl

pub find-put :
    (key f : String) (args : List String) (st : Store)
    → find key f (put key args st) ≡ or_else (flat_lookup f args) (find key f st)
find-put key f [] st = refl
find-put key f (g ∷ []) st = refl
find-put key f (g ∷ v ∷ rest) st =
    rw (find-put key f rest ((key, g, v) ∷ st), eq_refl key)
      (or_else-if (flat_lookup f rest) (find key f st) (str_eq g f) v)

pub find-put_ne :
    (key key' f : String) (args : List String) (st : Store)
    → key ≢ key'
    → find key' f (put key args st) ≡ find key' f st
find-put_ne key key' f [] st h = refl
find-put_ne key key' f (g ∷ []) st h = refl
find-put_ne key key' f (g ∷ v ∷ rest) st h =
    ground (arith, find-put_ne key key' f rest ((key, g, v) ∷ st) h, eq_iff key key')

entry_lookup-entries :
    (key f : String) (st : Store) → entry_lookup f (entries key st) ≡ find key f st
entry_lookup-entries key f [] = refl
entry_lookup-entries key f ((k, g, v) ∷ st) = ground (arith, entry_lookup-entries key f st)

pub find-remove : (key f : String) (st : Store) → find key f (remove key st) ≡ none
find-remove key f [] = refl
find-remove key f ((k, g, v) ∷ st) = ground (arith, find-remove key f st)

pub find-remove_ne :
    (key key' f : String) (st : Store) → key ≢ key' → find key' f (remove key st) ≡ find key' f st
find-remove_ne key key' f [] h = refl
find-remove_ne key key' f ((k, g, v) ∷ st) h =
    ground (arith, find-remove_ne key key' f st h, eq_iff k key, eq_iff k key')

pub tonumber_format : (i : ℤ) → IsExact i → to_option (parse_int (format_int i)) ≡ some i
tonumber_format i e = rw (parse_int-format_int i (omega arith))

pub expire_keeps :
    (key key' f : String) (n : ℕ) (st : Store)
    → 0 < n
    → find key' f (if ltb_ℤ (pos 0) (pos n) then st else remove key st) ≡ find key' f st
expire_keeps key key' f n st h = ground arith

abbrev pub memory_laws : ServerLaws memory
memory_laws = record {
  hset_self = find-put;
  hset_ne = find-put_ne;
  number = λ i. i;
  tonumber_exact = tonumber_format;
  ge_exact = λ i j _ _. refl;
  expire_positive = λ key key' f n st h _. expire_keeps key key' f n st h;
}

abbrev pub remove_all : List String → Store → Store
remove_all [] st = st
remove_all (k ∷ ks) st = remove_all ks (remove k st)

abbrev pub memory_client : Client Store Store
memory_client = record {
  hgetall = λ key st. (ok (entries key st), st);
  run_script = λ script key args st. script key args st;
  del = λ key st. (ok tt, remove key st);
  pipeline_del = λ keys st. (ok tt, remove_all keys st);
}

pub hgetall_entries :
    (key : String) (st : Store) {m : List (String × String)}
    → ok (entries key st) ≡ ok m
    → (f : String) → entry_lookup f m ≡ find key f st
hgetall_entries key st e f = ground (arith, entry_lookup-entries key f st)

abbrev pub memory_client_laws : ClientLaws memory memory_client
memory_client_laws = record {
  view = λ st. st;
  hgetall_lem = hgetall_entries;
  run_script_lem = λ script key args st e. (e, refl);
}
