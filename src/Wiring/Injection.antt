-- ===== src/Wiring/Injection.antt =====
-- src/common/dependencyRegistration.ts.
use osm_sync_tracker.Prelude.{ℕ, Bool, Option, none, some, List, [], ◌∷◌, find, if◌then◌else◌}
use osm_sync_tracker.Common.Action.{Action, pure, ◌>>◌}
use osm_sync_tracker.Wiring.Tokens.{Token, token_eq}

pub data Lifecycle : Type 0 where
  singleton container_scoped : Lifecycle

-- The providers of tsyringe; `other` is one of a caller that overrides.
pub data Provider : Type 0 where
  use_value caching_factory use_factory use_class : Provider
  other : ℕ → Provider

pub record InjectionObject (S : Type 0) : Type 0 where
  pub token : Token
  pub provider : Provider
  pub options : Option Lifecycle
  pub post_injection_hook : Option (Action S Unit)
  pub after_all_injection_hook : Option (Action S Unit)

-- The calls of a container of tsyringe.
pub record ContainerClass (S : Type 0) : Type 0 where
  pub create_child : Action S Unit
  pub register : Token → Provider → Option Lifecycle → Action S Unit
  pub resolve : Token → Action S Unit

abbrev pub run_hook : {S : Type 0} → Option (Action S Unit) → Action S (Unit {0})
run_hook none = pure tt
run_hook (some hook) = hook

module _ {S : Type 0} (c : ContainerClass S) where
  abbrev pub get_injection_object : List (InjectionObject S) → InjectionObject S → InjectionObject S
  get_injection_object override dep = elim (find (λ o. token_eq o.token dep.token) override) [
    | none ↦ dep
    | some o ↦ o
  ]

  abbrev pub register_object : InjectionObject S → Action S (Unit {0})
  register_object o = c.register o.token o.provider o.options

  -- The hook is that of the dependency, whether or not it is overridden.
  abbrev pub register_all :
      List (InjectionObject S) → List (InjectionObject S) → Action S (Unit {0})
  register_all override [] = pure tt
  register_all override (dep ∷ deps) =
      register_object (get_injection_object override dep)
      >> run_hook dep.post_injection_hook
      >> register_all override deps

  abbrev pub run_after_all : List (InjectionObject S) → Action S (Unit {0})
  run_after_all [] = pure tt
  run_after_all (dep ∷ deps) = run_hook dep.after_all_injection_hook >> run_after_all deps

  unfoldable pub register_dependencies :
      List (InjectionObject S) → List (InjectionObject S) → Bool → Action S (Unit {0})
  register_dependencies dependencies override use_child =
      (if use_child then c.create_child else pure tt)
      >> register_all override dependencies
      >> run_after_all dependencies

-- What is registered for a dependency, with the hooks of the dependency.
abbrev pub overridden : {S : Type 0} → InjectionObject S → InjectionObject S → InjectionObject S
overridden dep o = record dep { token = o.token; provider = o.provider; options = o.options }
