-- ===== src/Wiring/Trace.antt =====
-- The calls of src/containerConfig.ts with what they open and register for the cleanup.
use osm_sync_tracker.Prelude.{
  ℕ, Bool, true, List, [], ◌∷◌, any, all, if◌then◌else◌, ◌≡◌, refl, arith, ◌+◌, none,
}
use osm_sync_tracker.Common.Action.{Action, Result, ok, err, ◌>>◌}
use osm_sync_tracker.Wiring.Tokens.{Token, token_eq, QueueName}
use osm_sync_tracker.Wiring.Injection.{Provider}
use osm_sync_tracker.Wiring.Container.{Externals}

-- What was opened, what the registry that the container resolves and the own one hold, and how often
-- the own one was triggered.
pub record Trace : Type 0 where
  pub opened : List Token
  pub registered : List Token
  pub own : List Token
  pub triggered : ℕ

abbrev pub no_trace : Trace
no_trace = record { opened = []; registered = []; own = []; triggered = 0 }

abbrev pub holds : List Token → Token → Bool
holds ts t = any (token_eq t) ts

-- The own registry holds the data source, and the resolved one everything else.
abbrev pub is_left : Trace → Token → Bool
is_left tr t = if token_eq t Token.data_source then holds tr.own t else holds tr.registered t

-- All that was opened is left for the cleanup.
abbrev pub is_covered : Trace → Bool
is_covered tr = all (is_left tr) tr.opened

abbrev pub on_ok : Result (Unit {0}) → (Trace → Trace) → Trace → Trace
on_ok (ok u) f tr = f tr
on_ok (err e) f tr = tr

abbrev pub traced : {S : Type 0} → (Trace → Trace) → Action S Unit → Action (S × Trace) Unit
traced f m (s, tr) = let (r, s') = m s in (r, (s', on_ok r f tr))

abbrev pub untraced : {S : Type 0} → Action S Unit → Action (S × Trace) Unit
untraced = traced (λ tr. tr)

-- The same calls, traced.
abbrev pub tracked : {S : Type 0} → Externals S → Externals (S × Trace)
tracked x = record {
  container = record {
    create_child = untraced x.container.create_child;
    register = λ t p o. untraced (x.container.register t p o);
    resolve = λ t. untraced (x.container.resolve t);
  };
  is_initialized = λ (s, tr). x.is_initialized s;
  initialize = traced (λ tr. record tr { opened = Token.data_source ∷ tr.opened }) x.initialize;
  initialize_transactional_context = untraced x.initialize_transactional_context;
  add_transactional_data_source = untraced x.add_transactional_data_source;
  create_queue =
      λ q. traced (λ tr. record tr { opened = Token.queue q ∷ tr.opened }) (x.create_queue q);
  register_cleanup =
      λ t. traced (λ tr. record tr { registered = t ∷ tr.registered }) (x.register_cleanup t);
  register_own_cleanup =
      λ t. traced (λ tr. record tr { own = t ∷ tr.own }) (x.register_own_cleanup t);
  trigger_cleanup = λ (s, tr).
      let (r, s') = x.trigger_cleanup s in (r, (s', record tr { triggered = tr.triggered + 1 }));
  log_cleanup = untraced x.log_cleanup;
}

module _ (tr : Trace) (t : Token) where
  pub registers_more :
      (us : List Token)
      → all (is_left tr) us ≡ true
      → all (is_left (record tr { registered = t ∷ tr.registered })) us ≡ true
  registers_more [] h = refl
  registers_more (u ∷ us) h = ground (arith, h, registers_more us)

  pub owns_more :
      (us : List Token)
      → all (is_left tr) us ≡ true
      → all (is_left (record tr { own = t ∷ tr.own })) us ≡ true
  owns_more [] h = refl
  owns_more (u ∷ us) h = ground (arith, h, owns_more us)

-- The calls that follow an opening before its cleanup is registered do not fail.
pub record IsReliable {S : Type 0} (x : Externals S) : Type 0 where
  pub registers_cleanup : (t : Token) (s : S) → (x.register_cleanup t s).0 ≡ ok tt
  pub registers_own_cleanup : (t : Token) (s : S) → (x.register_own_cleanup t s).0 ≡ ok tt
  pub registers_queues :
      (q : QueueName) (s : S)
      → (x.container.register (Token.queue q) Provider.use_value none s).0 ≡ ok tt
  pub sets_context : (s : S) → (x.initialize_transactional_context s).0 ≡ ok tt
  pub adds_data_source : (s : S) → (x.add_transactional_data_source s).0 ≡ ok tt

module _ {S : Type 0} where
  abbrev pub IsCovered : S × Trace → Type 0
  IsCovered (s, tr) = (is_covered tr ≡ true) × (tr.triggered ≡ 0)

  abbrev pub Covers : Action (S × Trace) Unit → Type 0
  Covers m = (s : S × Trace) → IsCovered s → IsCovered (m s).1

  after_result :
      (k : Action (S × Trace) Unit) (r : Result (Unit {0})) (s : S × Trace)
      → Covers k
      → IsCovered s
      → IsCovered (((λ x. (r, s)) >> k) s).1
  after_result k (ok u) s keep h = keep s h
  after_result k (err e) s keep h = h

  pub >>-Covers : (m k : Action (S × Trace) Unit) → Covers m → Covers k → Covers (m >> k)
  >>-Covers m k keep keep_k s h = after_result k (m s).0 (m s).1 keep_k (keep s h)

  pub untraced-Covers : (m : Action S Unit) → Covers (untraced m)
  untraced-Covers m s h = ground (arith, h)

  pub register_cleanup-Covers :
      (x : Externals S) (t : Token) → Covers ((tracked x).register_cleanup t)
  register_cleanup-Covers x t s h = ground (arith, h, registers_more s.1 t s.1.opened)
