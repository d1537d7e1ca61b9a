-- ===== src/Wiring/Cleanup.antt =====
-- What src/containerConfig.ts opens is left for the cleanup.
use osm_sync_tracker.Prelude.{
  Bool, true, List, [], ◌∷◌, ◌≡◌, refl, arith, none, if◌then◌else◌, All, false,
}
use osm_sync_tracker.Common.Action.{Action, ok, err, ◌>>◌, pure}
use osm_sync_tracker.Wiring.Tokens.{changesets, files, syncs, Token, QueueName, queue_names}
use osm_sync_tracker.Wiring.Injection.{
  Provider, InjectionObject, run_after_all, register_all, get_injection_object, run_hook,
  register_object, register_dependencies,
}
use osm_sync_tracker.Wiring.Trace.{
  Trace, tracked, >>-Covers, IsReliable, Covers, register_cleanup-Covers, registers_more, owns_more,
  untraced-Covers, untraced, no_trace, is_covered,
}
use osm_sync_tracker.Wiring.Container.{
  Externals, data_source_hook, open_data_source, add_queue, add_queues, queues_hook, worker_hook,
  dependencies, register_closure_deps, register_external_values,
}

module _ {S : Type 0} (x : Externals S) (reliable : IsReliable x) where
  add_queue-Covers : (q : QueueName) → Covers (add_queue (tracked x) q)
  add_queue-Covers q s h =
      let s1 = (x.create_queue q s.0).1 in
      let s2 = (x.container.register (Token.queue q) Provider.use_value none s1).1 in
      ground (
        arith,
        h,
        reliable.registers_queues q s1,
        reliable.registers_cleanup (Token.queue q) s2,
        registers_more s.1 (Token.queue q) s.1.opened,
      )

  add_queues-Covers : (qs : List QueueName) → Covers (add_queues (tracked x) qs)
  add_queues-Covers [] s h = h
  add_queues-Covers (q ∷ qs) s h =
      >>-Covers (add_queue (tracked x) q) (add_queues (tracked x) qs) (add_queue-Covers q)
        (add_queues-Covers qs) s h

  open_data_source-Covers : Covers (open_data_source (tracked x))
  open_data_source-Covers s h =
      let s1 = (x.initialize s.0).1 in
      let s2 = (x.initialize_transactional_context s1).1 in
      let s3 = (x.add_transactional_data_source s2).1 in
      ground (
        arith,
        h,
        reliable.sets_context s1,
        reliable.adds_data_source s2,
        reliable.registers_own_cleanup Token.data_source s3,
        owns_more s.1 Token.data_source s.1.opened,
      )

  open_if_closed-Covers :
      Covers (λ s. if x.is_initialized s.0 then (ok tt, s) else open_data_source (tracked x) s)
  open_if_closed-Covers s h = ground (arith, h, open_data_source-Covers s h)

  data_source_hook-Covers : Covers (data_source_hook (tracked x))
  data_source_hook-Covers =
      >>-Covers (untraced (x.container.resolve Token.data_source))
        (λ s. if x.is_initialized s.0 then (ok tt, s) else open_data_source (tracked x) s)
        (untraced-Covers (x.container.resolve Token.data_source)) open_if_closed-Covers

  resolve_both-Covers :
      (t u : Token) → Covers ((tracked x).container.resolve t >> (tracked x).container.resolve u)
  resolve_both-Covers t u =
      >>-Covers ((tracked x).container.resolve t) ((tracked x).container.resolve u)
        (untraced-Covers (x.container.resolve t)) (untraced-Covers (x.container.resolve u))

  queues_hook-Covers : Covers (queues_hook (tracked x))
  queues_hook-Covers =
      >>-Covers
        ((tracked x).container.resolve Token.queue_provider_factory
          >> (tracked x).container.resolve Token.cleanup_registry)
        (add_queues (tracked x) queue_names)
        (resolve_both-Covers Token.queue_provider_factory Token.cleanup_registry)
        (add_queues-Covers queue_names)

  worker_hook-Covers : (t : Token) → Covers (worker_hook (tracked x) t)
  worker_hook-Covers t =
      >>-Covers
        ((tracked x).container.resolve t >> (tracked x).container.resolve Token.cleanup_registry)
        ((tracked x).register_cleanup t) (resolve_both-Covers t Token.cleanup_registry)
        (register_cleanup-Covers x t)

  log_hook-Covers : Covers ((tracked x).container.resolve Token.logger >> (tracked x).log_cleanup)
  log_hook-Covers =
      >>-Covers ((tracked x).container.resolve Token.logger) (tracked x).log_cleanup
        (untraced-Covers (x.container.resolve Token.logger)) (untraced-Covers x.log_cleanup)

  -- The hooks of a list of dependencies.
  abbrev HooksCover : List (InjectionObject (S × Trace)) → Type 0
  HooksCover =
      All (λ o.
        Covers (run_hook o.post_injection_hook) × Covers (run_hook o.after_all_injection_hook))

  nothing-Covers : Covers {S = S} (pure tt)
  nothing-Covers s h = h

  register_all-Covers :
      (override deps : List (InjectionObject (S × Trace)))
      → HooksCover deps
      → Covers (register_all (tracked x).container override deps)
  register_all-Covers override [] c s h = h
  register_all-Covers override (dep ∷ deps) c s h =
      let o = get_injection_object (tracked x).container override dep in
      >>-Covers (register_object (tracked x).container o >> run_hook dep.post_injection_hook)
        (register_all (tracked x).container override deps)
        (>>-Covers (register_object (tracked x).container o) (run_hook dep.post_injection_hook)
          (untraced-Covers (x.container.register o.token o.provider o.options)) c.0.0)
        (register_all-Covers override deps c.1) s h

  run_after_all-Covers :
      (deps : List (InjectionObject (S × Trace)))
      → HooksCover deps
      → Covers (run_after_all (tracked x).container deps)
  run_after_all-Covers [] c s h = h
  run_after_all-Covers (dep ∷ deps) c s h =
      >>-Covers (run_hook dep.after_all_injection_hook) (run_after_all (tracked x).container deps)
        c.0.1 (run_after_all-Covers deps c.1) s h

  no_hooks-Covers : Covers {S = S} (pure tt) × Covers {S = S} (pure tt)
  no_hooks-Covers = (nothing-Covers, nothing-Covers)

  dependencies-HooksCover : HooksCover (dependencies (tracked x))
  unfolding dependencies register_closure_deps
  dependencies-HooksCover = (
    no_hooks-Covers,
    (
      (nothing-Covers, log_hook-Covers),
      (
        no_hooks-Covers,
        (
          no_hooks-Covers,
          (
            no_hooks-Covers,
            (
              (data_source_hook-Covers, nothing-Covers),
              (
                no_hooks-Covers,
                (
                  no_hooks-Covers,
                  (
                    no_hooks-Covers,
                    (
                      no_hooks-Covers,
                      (
                        no_hooks-Covers,
                        (
                          no_hooks-Covers,
                          (
                            no_hooks-Covers,
                            (
                              no_hooks-Covers,
                              (
                                no_hooks-Covers,
                                (
                                  no_hooks-Covers,
                                  (
                                    no_hooks-Covers,
                                    (
                                      no_hooks-Covers,
                                      (
                                        no_hooks-Covers,
                                        (
                                          (queues_hook-Covers, nothing-Covers),
                                          (
                                            (
                                              worker_hook-Covers (Token.worker changesets),
                                              nothing-Covers,
                                            ),
                                            (
                                              (
                                                worker_hook-Covers (Token.worker files),
                                                nothing-Covers,
                                              ),
                                              (
                                                (
                                                  worker_hook-Covers (Token.worker syncs),
                                                  nothing-Covers,
                                                ),
                                                (no_hooks-Covers, tt),
                                              ),
                                            ),
                                          ),
                                        ),
                                      ),
                                    ),
                                  ),
                                ),
                              ),
                            ),
                          ),
                        ),
                      ),
                    ),
                  ),
                ),
              ),
            ),
          ),
        ),
      ),
    ),
  )

  create_child-Covers :
      (use_child : Bool)
      → Covers (if use_child then (tracked x).container.create_child else pure tt)
  create_child-Covers true = untraced-Covers x.container.create_child
  create_child-Covers false = nothing-Covers

  register_dependencies-Covers :
      (override : List (InjectionObject (S × Trace))) (use_child : Bool)
      → Covers (
          register_dependencies (tracked x).container (dependencies (tracked x)) override use_child)
  unfolding register_dependencies
  register_dependencies-Covers override use_child =
      let c = (tracked x).container in
      let deps = dependencies (tracked x) in
      let child : Action (S × Trace) (Unit {0}) = if use_child then c.create_child else pure tt in
      >>-Covers (child >> register_all c override deps) (run_after_all c deps)
        (>>-Covers child (register_all c override deps) (create_child-Covers use_child)
          (register_all-Covers override deps dependencies-HooksCover))
        (run_after_all-Covers deps dependencies-HooksCover)

  -- Let the calls that follow an opening, up to the registration of its cleanup, not fail. Then,
  -- whatever is overridden and wherever the registration fails, the data source that it has opened is
  -- left to its own cleanup registry and each queue to the registry that the container resolves, and
  -- the own registry is triggered once if the registration fails and not at all if it succeeds.
  pub register_external_values-covered :
      (override : List (InjectionObject (S × Trace))) (use_child : Bool) (s : S)
      → let (r, (s', tr)) = register_external_values (tracked x) override use_child (s, no_trace) in
        (is_covered tr ≡ true) × (tr.triggered ≡ elim r [ ok u ↦ 0 | err e ↦ 1 ])
  unfolding register_external_values
  register_external_values-covered override use_child s =
      let h = register_dependencies-Covers override use_child (s, no_trace) (refl, refl) in
      ground (arith, h)
