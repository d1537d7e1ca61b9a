-- ===== src/Wiring/Overrides.antt =====
-- What an override changes: src/common/dependencyRegistration.ts.
use osm_sync_tracker.Prelude.{arith, ◌∙◌, if◌then◌else◌, Bool, List, [], ◌∷◌, map, ◌≡◌, refl, ap}
use osm_sync_tracker.Common.Action.{Action, ◌>>◌}
use osm_sync_tracker.Wiring.Tokens.{token_eq}
use osm_sync_tracker.Wiring.Injection.{
  InjectionObject, ContainerClass, register_dependencies, overridden, register_all, run_after_all,
  get_injection_object, run_hook, register_object,
}

-- The dependency with what the first override of its token gives, or as it is if there is none.
abbrev pub with_override :
    {S : Type 0} → List (InjectionObject S) → InjectionObject S → InjectionObject S
with_override [] dep = dep
with_override (o ∷ os) dep =
    if token_eq o.token dep.token
    then record dep { token = o.token; provider = o.provider; options = o.options }
    else with_override os dep

module _ {S : Type 0} (c : ContainerClass S) where
  with_override_found :
      (os : List (InjectionObject S)) (dep : InjectionObject S)
      → overridden dep (get_injection_object c os dep) ≡ with_override os dep
  with_override_found [] dep = refl
  with_override_found (o ∷ os) dep = ground (arith, with_override_found os dep)

  module _ (override : List (InjectionObject S)) where
    register_one :
        (dep : InjectionObject S) (rest : Action S (Unit {0}))
        → (register_object c (get_injection_object c override dep)
            >> run_hook dep.post_injection_hook
            >> rest)
          ≡ (let o = with_override override dep in
              register_object c o >> run_hook o.post_injection_hook >> rest)
    register_one dep rest =
        ap (λ o. register_object c o >> run_hook o.post_injection_hook >> rest)
          (with_override_found override dep)

    all_overridden :
        (deps : List (InjectionObject S))
        → register_all c override deps ≡ register_all c [] (map (with_override override) deps)
    all_overridden [] = refl
    all_overridden (dep ∷ deps) =
        ap
          (λ rest.
            register_object c (get_injection_object c override dep)
            >> run_hook dep.post_injection_hook
            >> rest)
          (all_overridden deps)
        ∙ register_one dep (register_all c [] (map (with_override override) deps))

    after_all_overridden :
        (deps : List (InjectionObject S))
        → run_after_all c deps ≡ run_after_all c (map (with_override override) deps)
    after_all_overridden [] = refl
    after_all_overridden (dep ∷ deps) =
        ap (λ rest. run_hook dep.after_all_injection_hook >> rest) (after_all_overridden deps)
        ∙ ap
            (λ o.
              run_hook o.after_all_injection_hook
              >> run_after_all c (map (with_override override) deps))
            (with_override_found override dep)

    -- A registration with overrides is the registration of the dependencies in which the token,
    -- the provider and the lifecycle that the first override of a token gives take the place of the
    -- dependency's, while the hooks stay those of the dependency.
    pub register_dependencies-overridden :
        (dependencies : List (InjectionObject S)) (use_child : Bool)
        → register_dependencies c dependencies override use_child
          ≡ register_dependencies c (map (with_override override) dependencies) [] use_child
    unfolding register_dependencies
    register_dependencies-overridden dependencies use_child =
        rw (all_overridden dependencies, after_all_overridden dependencies) refl
