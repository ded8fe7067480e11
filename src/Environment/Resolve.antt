-- ===== src/Environment/Resolve.antt =====
-- Every link of src/runtime/collector.rs finds the pool that it is to call through.
use rustservicelib.Base.{
  ◌⊎◌, inl, inr, Option-cases, ℕ, [], ◌∷◌, ◌++◌, map, Option, none, some, nat_eq, string_eq,
  pair_eq, lookup, ◌>>=◌, All, bind-some, ◌≡◌, refl, sym, ◌∙◌, ap, subst,
}
use rustservicelib.Config.Runtime.{
  CallSemantics, ServiceConfig, LinkConfig, RuntimeConfig, Parts, values, referenced_pools,
  from_parts,
}
use rustservicelib.Config.Runtime.Pools.{HasPool, from_parts-HasPool}
use rustservicelib.Environment.{
  Environment, service_semantics, service_of, default_semantics, register_configured_pools,
  link_semantics, call_semantics, function_call_async, Caller, link_caller,
}
use rustservicelib.Environment.Registers.{
  IsRegistered, register_pools-Registers, All-lookup, All-append, append-All, make_caller-Through,
  Through,
}

-- What is said of all ways to call that a configuration mentions holds of the default of a service.
default_semantics_lem :
    (P : CallSemantics → Type 0) (env : Environment)
    → All P (referenced_pools env.config)
    → P (default_semantics env)
unfolding default_semantics referenced_pools
default_semantics_lem P env (h, hs) = found (service_of env) refl
  where
    services :
        All P
          (map (λ (s : ServiceConfig). s.default_call_semantics) (values env.config.services.by_id))
    services = (All-append P _ _ hs).0

    found :
        (o : Option ServiceConfig)
        → service_of env ≡ o
        → P (service_semantics o env.config.default_call_semantics)
    found none e = h
    found (some s) e =
        let (id, _, at) =
          bind-some env.service_id (λ id. lookup id env.config.services.by_id) s e in
        All-lookup P (λ (s : ServiceConfig). s.default_call_semantics) id s
          env.config.services.by_id services at

configured-HasPool :
    (env : Environment)
    → All (HasPool env.config.pools_by_name) (referenced_pools env.config)
    → All (HasPool env.config.pools_by_name) (
        map (λ (l : LinkConfig). l.call_semantics) (values env.config.links)
        ++ default_semantics env ∷ [])
unfolding referenced_pools
configured-HasPool env h =
    let P = HasPool env.config.pools_by_name in
    let services =
      map (λ (s : ServiceConfig). s.default_call_semantics) (values env.config.services.by_id) in
    let links = map (λ (l : LinkConfig). l.call_semantics) (values env.config.links) in
    append-All P links (default_semantics env ∷ []) (All-append P services links h.1).1
      (default_semantics_lem P env h, tt)

-- The way to call between two streams that a configuration has for a service.
abbrev semantics_in : RuntimeConfig → Option ℕ → ℕ → ℕ → CallSemantics
semantics_in r service from to =
    link_semantics (lookup (from, to) r.links)
      (service_semantics (service >>= λ id. lookup id r.services.by_id) r.default_call_semantics)

-- The default of a service: its own, or where it is not configured that of the configuration.
abbrev pub IsDefault : RuntimeConfig → Option ℕ → CallSemantics → Type 0
IsDefault r none c = c ≡ r.default_call_semantics
IsDefault r (some id) c =
    ((s : ServiceConfig) × (lookup id r.services.by_id ≡ some s) × (c ≡ s.default_call_semantics))
    ⊎ ((lookup id r.services.by_id ≡ none) × (c ≡ r.default_call_semantics))

-- The way to call between two streams: that of their link, or without a link the default.
abbrev pub IsChosen : RuntimeConfig → Option ℕ → ℕ → ℕ → CallSemantics → Type 0
IsChosen r service from to c =
    ((l : LinkConfig) × (lookup (from, to) r.links ≡ some l) × (c ≡ l.call_semantics))
    ⊎ ((lookup (from, to) r.links ≡ none) × IsDefault r service c)

service_semantics-IsDefault :
    (r : RuntimeConfig) (service : Option ℕ)
    → IsDefault r service
        (service_semantics (service >>= λ id. lookup id r.services.by_id) r.default_call_semantics)
service_semantics-IsDefault r none = refl
service_semantics-IsDefault r (some id) = elim (Option-cases (lookup id r.services.by_id)) [
  | inl missing ↦ inr (missing, rw missing refl)
  | inr (s, found) ↦ inl (s, found, rw found refl)
]

semantics_in-IsChosen :
    (r : RuntimeConfig) (service : Option ℕ) (from to : ℕ)
    → IsChosen r service from to (semantics_in r service from to)
semantics_in-IsChosen r service from to = elim (Option-cases (lookup (from, to) r.links)) [
  | inl missing ↦ inr (
    missing,
    subst (IsDefault r service) (rw missing refl) (service_semantics-IsDefault r service),
  )
  | inr (l, found) ↦ inl (l, found, rw found refl)
]

-- An environment whose configuration `from_parts` has accepted: `register_configured_pools` succeeds, and
-- after it the link between any two streams has a caller for the way to call that the configuration
-- has for the two, or for the service where no link is configured: one that calls the function, in
-- parallel, or through the pool that is registered under the name.
pub links_resolve :
    (p : Parts) (r : RuntimeConfig) (env : Environment)
    → from_parts p ≡ some r
    → env.config ≡ r
    → (later : Environment) × (register_configured_pools env ≡ some later)
      × ((from to : ℕ)
          → (c : CallSemantics) × IsChosen r env.service_id from to c
            × ((k : Caller) × (link_caller from to later ≡ some k) × Through later c k))
unfolding register_configured_pools link_caller call_semantics default_semantics
links_resolve p r env h same =
    let P = HasPool env.config.pools_by_name in
    let pools : All P (referenced_pools env.config) =
      subst (λ (c : RuntimeConfig). All (HasPool c.pools_by_name) (referenced_pools c)) (sym same)
        (from_parts-HasPool p r h) in
    let links = map (λ (l : LinkConfig). l.call_semantics) (values env.config.links) in
    let (later, ran, (config, service, keep), all) =
      register_pools-Registers (links ++ default_semantics env ∷ []) env
        (configured-HasPool env pools) in
    let (of_links, of_default) =
      All-append (IsRegistered later) links (default_semantics env ∷ []) all in
    (
      later,
      ran,
      λ from to. (
        call_semantics from to later,
        subst (λ x. IsChosen x env.service_id from to (call_semantics from to later)) same
            (subst (IsChosen env.config env.service_id from to)
              (unfold call_semantics default_semantics in
                sym (same_way later from to config service))
              (semantics_in-IsChosen env.config env.service_id from to)),
        make_caller-Through (call_semantics from to later) (function_call_async from to later) later
            (resolved later from to config service of_links of_default.0),
      ),
    )
  where
    same_way :
        (later : Environment) (from to : ℕ)
        → later.config ≡ env.config
        → later.service_id ≡ env.service_id
        → semantics_in later.config later.service_id from to
          ≡ semantics_in env.config env.service_id from to
    same_way later from to config service =
        ap (λ (c : RuntimeConfig). semantics_in c later.service_id from to) config
        ∙ ap (λ s. semantics_in env.config s from to) service

    of_link :
        (later : Environment) (from to : ℕ) (o : Option LinkConfig)
        → lookup (from, to) env.config.links ≡ o
        → All
            (IsRegistered later)
            (map (λ (l : LinkConfig). l.call_semantics) (values env.config.links))
        → IsRegistered later (default_semantics env)
        → IsRegistered later (link_semantics o (default_semantics env))
    of_link later from to none e links default_one = default_one
    of_link later from to (some l) e links default_one =
        All-lookup (IsRegistered later) (λ (l : LinkConfig). l.call_semantics) (from, to) l
          env.config.links links e

    resolved :
        (later : Environment) (from to : ℕ)
        → later.config ≡ env.config
        → later.service_id ≡ env.service_id
        → All
            (IsRegistered later)
            (map (λ (l : LinkConfig). l.call_semantics) (values env.config.links))
        → IsRegistered later (default_semantics env)
        → IsRegistered later (call_semantics from to later)
    resolved later from to config service links default_one =
        unfold call_semantics default_semantics in
        subst (IsRegistered later) (sym (same_way later from to config service))
          (of_link later from to (lookup (from, to) env.config.links) refl links default_one)
