-- ===== src/Kafka/Trace.antt =====
-- Readings of a log: what a consumer deleted, committed, dead-lettered, and how long it slept.
use investor_cache.Base.{String, ℕ, ◌≤◌, List, [], ◌∷◌, ◌++◌, length}
use investor_cache.Journal.{
  Entry, Message, cache_delete, cache_delete_batch, commit_message, dlq_write, sleep,
}

-- The keys of the delete requests, in the order of the requests.
abbrev pub deleted_keys : List Entry → List String
deleted_keys [] = []
deleted_keys (cache_delete key ∷ es) = deleted_keys es ++ key ∷ []
deleted_keys (cache_delete_batch keys ∷ es) = deleted_keys es ++ keys
deleted_keys (_ ∷ es) = deleted_keys es

-- Every batch in the log has at most so many keys.
abbrev pub AllBatches : ℕ → List Entry → Type 0
AllBatches n [] = Unit
AllBatches n (cache_delete_batch keys ∷ es) = (length keys ≤ n) × AllBatches n es
AllBatches n (_ ∷ es) = AllBatches n es

-- The committed messages, the dead letters and the waits, newest first.
abbrev pub commits : List Entry → List Message
commits [] = []
commits (commit_message msg ∷ es) = msg ∷ commits es
commits (_ ∷ es) = commits es

abbrev pub dead_letters : List Entry → List Message
dead_letters [] = []
dead_letters (dlq_write msg ∷ es) = msg ∷ dead_letters es
dead_letters (_ ∷ es) = dead_letters es

abbrev pub waits : List Entry → List ℕ
waits [] = []
waits (sleep d ∷ es) = d ∷ waits es
waits (_ ∷ es) = waits es
