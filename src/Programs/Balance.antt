-- ===== src/Programs/Balance.antt =====
-- What a program has open, has served and has closed, read from its log.
use text.Mathlib.Text.{◌==◌ as str_eq}
use investor_cache.Base.{String, List, [], ◌∷◌, ◌++◌, ◌≡◌, if◌then◌else◌}
use investor_cache.Go.{Result, ok, err, Error, World}
use investor_cache.Journal.{
  Entry, open_pool, close_pool, open_redis, close_redis, open_reader, open_writer, close_writer,
  listen, shut_down,
}
use investor_cache.Config.{Config}
use investor_cache.Programs.{
  Program, outbox_relay, profile_service, middleware, invalidation_worker, Process, End, exited,
  ended,
}

pub data Resource : Type 0 where
  pool : Resource
  redis : Resource
  reader : Resource
  writer : Resource
  server : String → Resource

-- A close takes the newest resource away, if it is the one that it closes. The cluster client is
-- looked for beneath a reader and a writer.
abbrev pub without_pool : List Resource → List Resource
without_pool (pool ∷ rs) = rs
without_pool rs = rs

abbrev pub without_redis : List Resource → List Resource
without_redis (redis ∷ rs) = rs
without_redis (reader ∷ rs) = reader ∷ without_redis rs
without_redis (writer ∷ rs) = writer ∷ without_redis rs
without_redis rs = rs

abbrev pub without_writer : List Resource → List Resource
without_writer (writer ∷ rs) = rs
without_writer rs = rs

abbrev pub without_server : String → List Resource → List Resource
without_server a (server b ∷ rs) = if str_eq a b then rs else server b ∷ rs
without_server a rs = rs

-- The resources that are open, the newest first.
abbrev pub open_of : List Entry → List Resource
open_of [] = []
open_of (open_pool dsn ∷ es) = pool ∷ open_of es
open_of (close_pool ∷ es) = without_pool (open_of es)
open_of (open_redis cfg ∷ es) = redis ∷ open_of es
open_of (close_redis ∷ es) = without_redis (open_of es)
open_of (open_reader topic ∷ es) = reader ∷ open_of es
open_of (open_writer topic ∷ es) = writer ∷ open_of es
open_of (close_writer ∷ es) = without_writer (open_of es)
open_of (listen a ∷ es) = server a ∷ open_of es
open_of (shut_down a ∷ es) = without_server a (open_of es)
open_of (_ ∷ es) = open_of es

-- The addresses that were served.
abbrev pub served : List Entry → List String
served [] = []
served (listen a ∷ es) = a ∷ served es
served (_ ∷ es) = served es

-- The closings and shutdowns that were requested.
abbrev pub closings : List Entry → List Entry
closings [] = []
closings (close_pool ∷ es) = close_pool ∷ closings es
closings (close_redis ∷ es) = close_redis ∷ closings es
closings (close_writer ∷ es) = close_writer ∷ closings es
closings (shut_down a ∷ es) = shut_down a ∷ closings es
closings (_ ∷ es) = closings es

-- What a program opens and leaves to its worker's `Run` to close.
abbrev pub left_to_run : Program → List Resource
left_to_run outbox_relay = []
left_to_run profile_service = []
left_to_run middleware = []
left_to_run invalidation_worker = writer ∷ reader ∷ []

module _ {W : Type 0} (p : Process W) where
  pub data IsProgramRun (q : Program) (w : World Entry W) (out : End × World Entry W) : Type 0 where
    -- A signal came, and nothing else is left open that was opened.
    balanced :
        (at : W)
        → (p.signalled at).0 ≡ ok tt
        → out.0 ≡ ended
        → open_of out.1.log ≡ left_to_run q ++ open_of w.log
        → IsProgramRun q w out
    -- Nothing was served.
    refused : out.0 ≡ exited → served out.1.log ≡ served w.log → IsProgramRun q w out
    -- A goroutine ended the process, and nothing was closed.
    crashed :
        (at : W) (e : Error)
        → (p.signalled at).0 ≡ err e
        → out.0 ≡ exited
        → closings out.1.log ≡ closings w.log
        → IsProgramRun q w out

  -- What opens a resource has it open behind it, or fails.
  data IsOpening (r : Resource) (w : World Entry W) (out : Result (Unit {0}) × World Entry W)
      : Type 0 where
    opened :
        out.0 ≡ ok tt
        → open_of out.1.log ≡ r ∷ open_of w.log
        → served out.1.log ≡ served w.log
        → closings out.1.log ≡ closings w.log
        → IsOpening r w out
    failed : (e : Error) → out.0 ≡ err e → served out.1.log ≡ served w.log → IsOpening r w out
