-- ===== src/Cache/Outcome.antt =====
-- internal/cache/result.go, and the key under which a profile is cached.
use investor_cache.Base.{String}
use investor_cache.Go.Strings.{concat}

pub data CacheResult : Type 0 where
  hit : CacheResult
  miss : CacheResult
  bypass : CacheResult
  error : CacheResult
  cb_open : CacheResult
  unknown : CacheResult

-- `string(cacheResult)`
abbrev pub label : CacheResult → String
label hit = "hit"
label miss = "miss"
label bypass = "bypass"
label error = "error"
label cb_open = "cb_open"
label unknown = "unknown"

-- `fmt.Sprintf("investor:%s", id)`
abbrev pub cache_key : String → String
cache_key id = concat "investor:" id
