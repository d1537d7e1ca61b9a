-- ===== src/Wiring/Tokens.antt =====
-- The tokens under which src/containerConfig.ts registers its dependencies: src/common/constants.ts,
-- src/queueProvider/constants.ts, and the symbols of the repositories and the routers.
use osm_sync_tracker.Prelude.{ℕ, Bool, ◌==◌, List, [], ◌∷◌, ◌+◌}

pub data QueueName : Type 0 where
  changesets files syncs : QueueName

pub data Token : Type 0 where
  config cleanup_registry logger tracer metrics data_source : Token
  file_repository changeset_repository sync_repository entity_repository : Token
  sync_router file_router entity_router changeset_router : Token
  healthcheck on_signal : Token
  redis_connection_options redis_worker_connection redis_queue_connection : Token
  queue_provider_factory closure_workers_initializer : Token
  queue : QueueName → Token
  worker : QueueName → Token

abbrev pub queue_names : List QueueName
queue_names = changesets ∷ files ∷ syncs ∷ []

abbrev number_of_queue : QueueName → ℕ
number_of_queue changesets = 0
number_of_queue files = 1
number_of_queue syncs = 2

-- Two tokens are the same if their numbers are.
abbrev pub number : Token → ℕ
number config = 0
number cleanup_registry = 1
number logger = 2
number tracer = 3
number metrics = 4
number data_source = 5
number file_repository = 6
number changeset_repository = 7
number sync_repository = 8
number entity_repository = 9
number sync_router = 10
number file_router = 11
number entity_router = 12
number changeset_router = 13
number healthcheck = 14
number on_signal = 15
number redis_connection_options = 16
number redis_worker_connection = 17
number redis_queue_connection = 18
number queue_provider_factory = 19
number closure_workers_initializer = 20
number (queue q) = 21 + number_of_queue q
number (worker q) = 24 + number_of_queue q

abbrev pub token_eq : Token → Token → Bool
token_eq a b = number a == number b
