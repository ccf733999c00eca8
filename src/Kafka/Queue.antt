-- ===== src/Kafka/Queue.antt =====
-- A consumer whose world is the queue of its messages, over a cache that deletes: the hypotheses of
-- `Feed` can be met.
use investor_cache.Base.{String, true, false, List, [], ◌∷◌, none, refl}
use investor_cache.Go.{Result, ok, err, sentinel, canceled}
use investor_cache.Journal.{Message}
use investor_cache.Kafka.Event.{InvalidationEvent}
use investor_cache.Kafka.{InvalidationConsumer}
use investor_cache.Kafka.Feed.{IsFed}

abbrev next : List Message → Result Message × List Message
next [] = (err (sentinel canceled), [])
next (m ∷ ms) = (ok m, ms)

module _ (unmarshal : String → Result InvalidationEvent) where
  abbrev pub consumer : InvalidationConsumer (List Message)
  consumer = record {
    fetch = next;
    commit = λ m ms. (ok tt, ms);
    reader_close = λ ms. (ok tt, ms);
    cache = record {
      get = λ key ms. (ok none, ms);
      set_versioned = λ key p ttl ms. (ok true, ms);
      delete = λ key ms. (ok tt, ms);
      delete_batch = λ keys ms. (ok tt, ms);
    };
    dlq_send = λ m ms. (ok tt, ms);
    dlq_close = λ ms. (ok tt, ms);
    unmarshal = unmarshal;
    error_text = λ e. "error";
    is_done = λ ms. (false, ms);
  }

  pub consumer-IsFed : IsFed consumer (λ ms. ms)
  consumer-IsFed = record {
    goes_on = λ ms. (refl, refl);
    fetches = λ w m ms e. rw e (refl, refl);
    deletes = λ key ms. (refl, refl);
    commits = λ m ms. refl;
  }
