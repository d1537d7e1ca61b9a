-- ===== src/Wiring/Container.antt =====
-- src/containerConfig.ts. A factory runs when its token is resolved, which is a call of the container.
use osm_sync_tracker.Prelude.{Bool, none, some, List, [], ◌∷◌, ◌++◌, map, if◌then◌else◌}
use osm_sync_tracker.Common.Action.{Action, ok, pure, throw, try_catch, ◌>>◌}
use osm_sync_tracker.Wiring.Tokens.{Token, QueueName, queue_names}
use osm_sync_tracker.Wiring.Injection.{
  Lifecycle, Provider, InjectionObject, ContainerClass, register_dependencies,
}

-- What the hooks call: the data source (typeorm), its transactions (typeorm-transactional), the
-- factory of the queues, and two cleanup registries. The own one is made by the call; the other is
-- what the container resolves, which is the own one unless its token is overridden.
pub record Externals (S : Type 0) : Type 0 where
  pub container : ContainerClass S
  pub is_initialized : S → Bool
  pub initialize : Action S Unit
  pub initialize_transactional_context : Action S Unit
  pub add_transactional_data_source : Action S Unit
  pub create_queue : QueueName → Action S Unit
  pub register_cleanup : Token → Action S Unit
  pub register_own_cleanup : Token → Action S Unit
  pub trigger_cleanup : Action S Unit
  pub log_cleanup : Action S Unit

module _ {S : Type 0} (x : Externals S) where
  open x use {container}

  abbrev plain : Token → Provider → InjectionObject S
  plain token provider = record {
    token = token;
    provider = provider;
    options = none;
    post_injection_hook = none;
    after_all_injection_hook = none;
  }

  -- A queue is created and registered, and its `close` left to the registry that was resolved.
  abbrev pub add_queue : QueueName → Action S (Unit {0})
  add_queue q =
      x.create_queue q
      >> container.register (Token.queue q) Provider.use_value none
      >> x.register_cleanup (Token.queue q)

  abbrev pub add_queues : List QueueName → Action S (Unit {0})
  add_queues [] = pure tt
  add_queues (q ∷ qs) = add_queue q >> add_queues qs

  abbrev pub queues_hook : Action S (Unit {0})
  queues_hook =
      container.resolve Token.queue_provider_factory
      >> container.resolve Token.cleanup_registry
      >> add_queues queue_names

  abbrev pub worker_hook : Token → Action S (Unit {0})
  worker_hook token =
      container.resolve token
      >> container.resolve Token.cleanup_registry
      >> x.register_cleanup token

  abbrev pub worker_object : QueueName → InjectionObject S
  worker_object q = record (plain (Token.worker q) Provider.use_class) {
    options = some Lifecycle.container_scoped;
    post_injection_hook = some (worker_hook (Token.worker q));
  }

  unfoldable pub register_closure_deps : List (InjectionObject S)
  register_closure_deps =
      plain Token.redis_connection_options Provider.caching_factory
      ∷ plain Token.redis_worker_connection Provider.caching_factory
      ∷ plain Token.redis_queue_connection Provider.caching_factory
      ∷ record (plain Token.queue_provider_factory Provider.use_class) {
        options = some Lifecycle.singleton;
        post_injection_hook = some queues_hook;
      }
      ∷ (map worker_object queue_names
          ++ plain Token.closure_workers_initializer Provider.use_factory ∷ [])

  abbrev pub open_data_source : Action S (Unit {0})
  open_data_source =
      x.initialize
      >> x.initialize_transactional_context
      >> x.add_transactional_data_source
      >> x.register_own_cleanup Token.data_source

  -- A data source that is open already is left alone.
  abbrev pub data_source_hook : Action S (Unit {0})
  data_source_hook = container.resolve Token.data_source >> λ s.
      if x.is_initialized s then (ok tt, s) else open_data_source s

  unfoldable pub dependencies : List (InjectionObject S)
  dependencies =
      plain Token.config Provider.use_value
      ∷ record (plain Token.cleanup_registry Provider.use_value) {
        after_all_injection_hook = some (container.resolve Token.logger >> x.log_cleanup);
      }
      ∷ plain Token.logger Provider.caching_factory
      ∷ plain Token.tracer Provider.caching_factory
      ∷ plain Token.metrics Provider.caching_factory
      ∷ record (plain Token.data_source Provider.caching_factory) {
        post_injection_hook = some data_source_hook;
      }
      ∷ plain Token.file_repository Provider.use_factory
      ∷ plain Token.changeset_repository Provider.use_factory
      ∷ plain Token.sync_repository Provider.use_factory
      ∷ plain Token.entity_repository Provider.use_factory
      ∷ plain Token.sync_router Provider.use_factory
      ∷ plain Token.file_router Provider.use_factory
      ∷ plain Token.entity_router Provider.use_factory
      ∷ plain Token.changeset_router Provider.use_factory
      ∷ plain Token.healthcheck Provider.use_factory
      ∷ plain Token.on_signal Provider.use_value
      ∷ register_closure_deps

  -- What fails is cleaned up after, by the own registry, and thrown on.
  unfoldable pub register_external_values : List (InjectionObject S) → Bool → Action S (Unit {0})
  register_external_values override use_child =
      try_catch (register_dependencies container dependencies override use_child)
        (λ error. x.trigger_cleanup >> throw error)
