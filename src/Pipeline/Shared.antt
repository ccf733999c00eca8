-- ===== src/Pipeline/Shared.antt =====
-- A worker and a middleware over one Redis in memory: the hypotheses of `Freshness` can be met.
use investor_cache.Base.{String, Bool, false, List, [], ◌∷◌, Option, ◌≡◌, refl}
use investor_cache.Go.{Result, ok, err, sentinel, canceled}
use investor_cache.Journal.{Proc, Message}
use investor_cache.Domain.{InvestorProfile, ProfileRepository}
use investor_cache.Cache.Redis.{Client}
use investor_cache.Cache.Redis.Laws.{ClientLaws}
use investor_cache.Cache.Redis.Memory.{
  Store, memory, entries, remove, remove_all, hgetall_entries, find-remove, find-remove_ne,
}
use investor_cache.Cache.Store.{redis_store}
use investor_cache.Cache.Manager.ReadThrough.{IsReadable, IsQuiet}
use investor_cache.Kafka.Event.{InvalidationEvent}
use investor_cache.Kafka.{InvalidationConsumer}
use investor_cache.Kafka.Feed.{IsFed}
use investor_cache.Pipeline.Freshness.{IsErasing}

pub record Shared : Type 0 where
  pub queue : List Message
  pub store : Store

abbrev pub client : Client Shared Store
client = record {
  hgetall = λ key w. (ok (entries key w.store), w);
  run_script = λ script key args w.
      ((script key args w.store).0, record w { store = (script key args w.store).1 });
  del = λ key w. (ok tt, record w { store = remove key w.store });
  pipeline_del = λ keys w. (ok tt, record w { store = remove_all keys w.store });
}

abbrev pub client_laws : ClientLaws memory client
client_laws = record {
  view = λ w. w.store;
  hgetall_lem = λ key w. hgetall_entries key w.store;
  run_script_lem = λ script key args w e. (e, refl);
}

abbrev next : List Message → Shared → Result Message × Shared
next [] w = (err (sentinel canceled), w)
next (m ∷ ms) w = (ok m, record w { queue = ms })

abbrev pub repo : (String → InvestorProfile) → ProfileRepository Shared
repo rows = record { get_by_id = λ id w. (ok (rows id), w) }

abbrev pub flight :
    String → Proc Shared (Result InvestorProfile) → Proc Shared (Result InvestorProfile × Bool)
flight k f w = (((f w).0, false), (f w).1)

abbrev pub breaker :
    Proc Shared (Result (Option InvestorProfile)) → Proc Shared (Result (Option InvestorProfile))
breaker f w = f w

pub quiet : IsQuiet flight breaker
quiet = record { closed = λ f w. refl; alone = λ k f w. refl }

pub readable :
    (rows : String → InvestorProfile) → IsReadable memory client (repo rows) client_laws.view rows
readable rows = record {
  replies = λ k w. (entries k w.store, refl);
  reads = λ k j f w. refl;
  runs = λ script k args w. refl;
  answers = λ id w. refl;
  selects = λ id j f w. refl;
}

module _ (unmarshal : String → Result InvalidationEvent) where
  abbrev pub worker : InvalidationConsumer Shared
  worker = record {
    fetch = λ w. next w.queue w;
    commit = λ m w. (ok tt, w);
    reader_close = λ w. (ok tt, w);
    cache = redis_store memory client;
    dlq_send = λ m w. (ok tt, w);
    dlq_close = λ w. (ok tt, w);
    unmarshal = unmarshal;
    error_text = λ e. "error";
    is_done = λ w. (false, w);
  }

  pub worker-IsFed : IsFed worker (λ w. w.queue)
  worker-IsFed = record {
    goes_on = λ w. (refl, refl);
    fetches = λ w m ms e. rw e (refl, refl);
    deletes = λ key w. (refl, refl);
    commits = λ m w. refl;
  }

  next-keeps : (ms : List Message) (w : Shared) → (next ms w).1.store ≡ w.store
  next-keeps [] w = refl
  next-keeps (m ∷ ms) w = refl

  pub worker-IsErasing : IsErasing memory client worker client_laws.view
  worker-IsErasing = record {
    over = refl;
    deletes = λ key f w. find-remove key f w.store;
    deletes_ne = λ key j f w ne. find-remove_ne key j f w.store ne;
    asks = λ j f w. refl;
    fetches = λ j f w. rw (next-keeps w.queue w) refl;
    commits = λ m j f w. refl;
  }
