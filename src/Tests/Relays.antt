-- ===== src/Tests/Relays.antt =====
-- Retried transactions and the relay of the outbox at concrete inputs.
use innoprog_fastapi_deliver.Prelude.{
  ℕ, suc, ◌-◌, ◌*◌, ◌≡◌, refl, String, Option, none, some, List, [], ◌∷◌, arith, ok, err, number_eq,
  if◌then◌else◌, ltb, sort_by, sort_insert,
}
use innoprog_fastapi_deliver.Dict
use innoprog_fastapi_deliver.Dict.{Dict}
use innoprog_fastapi_deliver.Errors.{unlisted}
use innoprog_fastapi_deliver.Transactions.{
  Heap, Raised, Setting, postgres_sqlstate, walk, visit, object, run_serializable, attempts_from,
  is_retryable,
}
use innoprog_fastapi_deliver.Transactions.Walk.{Answers, sqlstate_search_ends}
use innoprog_fastapi_deliver.Transactions.Attempts.{Ended, run_serializable-Ended}
use innoprog_fastapi_deliver.Outbox.{
  OutboxRow, Relay, Publish, relay_once, publish_pending_outbox, publish_rows, select_pending,
  by_age,
}
use innoprog_fastapi_deliver.Outbox.Batch.{backlog}
use innoprog_fastapi_deliver.Outbox.Backlog.{relays, backlog_drains}

opened : Unit {0}
unfolding Dict.get Dict.put object visit walk postgres_sqlstate is_retryable attempts_from
    run_serializable by_age select_pending publish_rows publish_pending_outbox relay_once sort_by
    sort_insert
opened = tt

-- Three exceptions in a circle, of which the last has a code.
abbrev linked : Option String → ℕ → Raised
linked pgcode next = record {
  sqlstate = none;
  pgcode = pgcode;
  orig = none;
  cause = some next;
  context = some next;
}

abbrev circle : Heap
circle = (1, linked none 2) ∷ (2, linked none 3) ∷ (3, linked (some "40001") 1) ∷ []

sqlstate_search_ends_example :
    (answer : Option String) × (postgres_sqlstate circle 1 ≡ some answer) × Answers circle 1 answer
sqlstate_search_ends_example = sqlstate_search_ends circle 1

finds_conflict : postgres_sqlstate circle 1 ≡ some (some "40001")
unfolding opened
finds_conflict = refl

finds_nothing : postgres_sqlstate ((1, linked none 2) ∷ (2, linked none 1) ∷ []) 1 ≡ some none
unfolding opened
finds_nothing = refl

-- A use case that adds one to a counter, and conflicts while the counter is below two; others add one
-- to it during each pause.
abbrev counting : Setting ℕ ℕ
counting = record {
  operation = λ n. if ltb n 2 then (err (unlisted 1), 99) else (ok n, suc n);
  dbapi_error = λ e. some 1;
  heap = circle;
  base_delay = 10000;
  jitter = λ attempt. 0;
  sleep = λ delay n. suc n;
}

run_serializable-Ended_example : Ended counting 0 3 (run_serializable counting 3 0)
run_serializable-Ended_example = run_serializable-Ended counting 3 0 (omega arith)

third_time : run_serializable counting 3 0 ≡ (ok 2, 3)
unfolding opened
third_time = refl

gives_up : run_serializable counting 2 0 ≡ (err (unlisted 1), 1)
unfolding opened
gives_up = refl

abbrev waiting : ℕ → OutboxRow
waiting created_at = record {
  event_type = "order.created";
  payload = [];
  legacy_processed_at = none;
  created_at = created_at;
  published_at = none;
}

-- A broker that keeps the ids that it has confirmed.
abbrev confirming : Publish (List ℕ)
confirming event ids = (ok tt, event.id ∷ ids)

abbrev three_waiting : Relay (List ℕ)
three_waiting = record {
  outbox = (1, waiting 30) ∷ (2, waiting 10) ∷ (3, waiting 20) ∷ [];
  broker = [];
}

backlog_drains_example :
    backlog (relays confirming (λ n. 100) 2 2 three_waiting).outbox
    ≡ backlog three_waiting.outbox - 2 * 2
unfolding Dict.get
backlog_drains_example =
    backlog_drains confirming (λ n. 100) 2 2 three_waiting (omega arith) (omega arith)
      (λ event broker. refl) (refl, (refl, (refl, tt)))

-- The oldest go first.
oldest_first : (relays confirming (λ n. 100) 2 1 three_waiting).broker ≡ 3 ∷ 2 ∷ []
unfolding opened
oldest_first = refl
