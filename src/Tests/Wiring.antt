-- ===== src/Tests/Wiring.antt =====
-- A container that notes what is registered, and a queue that cannot be created.
use osm_sync_tracker.Wiring.Cleanup.{register_external_values-covered}
use osm_sync_tracker.Wiring.Overrides.{with_override, register_dependencies-overridden}
use osm_sync_tracker.Wiring.Trace.{Trace, IsReliable, tracked, no_trace, is_covered}
use osm_sync_tracker.Prelude.{true, false, none, [], ◌∷◌, refl, ◌≡◌, List, map}
use osm_sync_tracker.Common.Action.{Action, ok, err}
use osm_sync_tracker.Common.Errors.{Error}
use osm_sync_tracker.Wiring.Tokens.{Token, QueueName, syncs, files, changesets}
use osm_sync_tracker.Wiring.Injection.{
  ContainerClass, Provider, InjectionObject, register_dependencies,
}
use osm_sync_tracker.Wiring.Container.{
  Externals, register_external_values, dependencies, register_closure_deps,
}

abbrev container : ContainerClass (List Token)
container = record {
  create_child = λ s. (ok tt, s);
  register = λ t p o s. (ok tt, t ∷ s);
  resolve = λ t s. (ok tt, s);
}

abbrev create : QueueName → Action (List Token) Unit
create syncs s = (err Error.other_error, s)
create _ s = (ok tt, s)

abbrev externals : Externals (List Token)
externals = record {
  container = container;
  is_initialized = λ s. false;
  initialize = λ s. (ok tt, s);
  initialize_transactional_context = λ s. (ok tt, s);
  add_transactional_data_source = λ s. (ok tt, s);
  create_queue = create;
  register_cleanup = λ t s. (ok tt, s);
  register_own_cleanup = λ t s. (ok tt, s);
  trigger_cleanup = λ s. (ok tt, s);
  log_cleanup = λ s. (ok tt, s);
}

externals-IsReliable : IsReliable externals
externals-IsReliable = record {
  registers_cleanup = λ t s. refl;
  registers_own_cleanup = λ t s. refl;
  registers_queues = λ q s. refl;
  sets_context = λ s. refl;
  adds_data_source = λ s. refl;
}

abbrev no_override : List (InjectionObject (List Token × Trace))
no_override = []

-- The creation of the third queue fails.
register_external_values-covered_example :
    let (r, (s', tr)) =
      register_external_values (tracked externals) no_override false ([], no_trace) in
    (is_covered tr ≡ true) × (tr.triggered ≡ elim r [ ok u ↦ 0 | err e ↦ 1 ])
register_external_values-covered_example =
    register_external_values-covered externals externals-IsReliable no_override false []

two_queues :
    (register_external_values (tracked externals) no_override false ([], no_trace)).1.1.opened
    ≡ Token.queue files ∷ Token.queue changesets ∷ Token.data_source ∷ []
unfolding register_external_values register_dependencies dependencies register_closure_deps
two_queues = refl

abbrev silent : InjectionObject (List Token)
silent = record {
  token = Token.logger;
  provider = Provider.other 1;
  options = none;
  post_injection_hook = none;
  after_all_injection_hook = none;
}

register_dependencies-overridden_example :
    register_dependencies container (dependencies externals) (silent ∷ []) true
    ≡ register_dependencies container
        (map (with_override (silent ∷ [])) (dependencies externals))
        []
        true
register_dependencies-overridden_example =
    register_dependencies-overridden container (silent ∷ []) (dependencies externals) true
