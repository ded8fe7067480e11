-- ===== src/Environment/Registers.antt =====
-- `register_configured_pools` of src/runtime/serviceapp.rs registers every pool of its ways to call.
use Prim.Native.String.{String}
use rustservicelib.Base.{
  List, [], ◌∷◌, ◌++◌, map, Option, some, Bool, ◌==◌, Eq, nat_eq, string_eq, pair_eq, lookup,
  insert, lookup-insert, lookup-insert_self, All, some_eq, ◌≡◌, refl, sym, ◌∙◌, subst, inl, inr,
  Bool-cases, Option-cases,
}
use rustservicelib.Config.Runtime.{
  CallSemantics, PoolConfig, RuntimeConfig, function_call, parallel_call, task_pool,
  priority_task_pool, values,
}
use rustservicelib.Config.Runtime.Pools.{HasPool}
use rustservicelib.Environment.{
  Environment, new_pool, register_task_pool, register_priority_task_pool, register_pool,
  register_pools, Caller, make_caller, calls_function, calls_parallel, calls_pool,
  calls_priority_pool,
}

-- The pool of a way to call is registered.
abbrev pub IsRegistered : Environment → CallSemantics → Type 0
IsRegistered env (task_pool name) = (p : PoolConfig) × (lookup name env.task_pools ≡ some p)
IsRegistered env (priority_task_pool name priority) =
    (p : PoolConfig) × (lookup name env.priority_task_pools ≡ some p)
IsRegistered env function_call = Unit
IsRegistered env parallel_call = Unit

-- An environment with more pools and else the same.
abbrev pub Extends : Environment → Environment → Type 0
Extends env later =
    (later.config ≡ env.config)
    × (later.service_id ≡ env.service_id)
    × ((c : CallSemantics) → IsRegistered env c → IsRegistered later c)

lookup-insert-some :
    (name other : String) (pool : PoolConfig) (m : List (String × PoolConfig))
    → (p : PoolConfig) × (lookup other m ≡ some p)
    → (p : PoolConfig) × (lookup other (insert name pool m) ≡ some p)
lookup-insert-some name other pool m (p, h) = elim (Bool-cases (name == other)) [
  | inl same ↦ (pool, lookup-insert name other pool m ∙ rw same refl)
  | inr apart ↦ (p, lookup-insert name other pool m ∙ rw apart h)
]

task_pool-Extends :
    (name : String) (pool : PoolConfig) (env : Environment)
    → Extends env (record env { task_pools = insert name pool env.task_pools })
task_pool-Extends name pool env = (refl, refl, kept)
  where
    kept :
        (c : CallSemantics)
        → IsRegistered env c
        → IsRegistered (record env { task_pools = insert name pool env.task_pools }) c
    kept (task_pool n) h = lookup-insert-some name n pool env.task_pools h
    kept (priority_task_pool n p) h = h
    kept function_call h = h
    kept parallel_call h = h

priority_task_pool-Extends :
    (name : String) (pool : PoolConfig) (env : Environment)
    → Extends env (record env { priority_task_pools = insert name pool env.priority_task_pools })
priority_task_pool-Extends name pool env = (refl, refl, kept)
  where
    kept :
        (c : CallSemantics)
        → IsRegistered env c
        → IsRegistered
            (record env { priority_task_pools = insert name pool env.priority_task_pools })
            c
    kept (task_pool n) h = h
    kept (priority_task_pool n p) h = lookup-insert-some name n pool env.priority_task_pools h
    kept function_call h = h
    kept parallel_call h = h

abbrev Registers : Environment → Option Environment → CallSemantics → Type 0
Registers env o c =
    (later : Environment) × (o ≡ some later) × Extends env later × IsRegistered later c

same-Extends : (env : Environment) → Extends env env
same-Extends env = (refl, refl, λ c h. h)

register_pool-Registers :
    (c : CallSemantics) (env : Environment)
    → HasPool env.config.pools_by_name c
    → Registers env (register_pool c env) c
unfolding register_pool register_task_pool register_priority_task_pool new_pool
register_pool-Registers (task_pool name) env (pool, h) =
    elim (Option-cases (lookup name env.task_pools)) [
      | inl gone ↦ (
        record env { task_pools = insert name pool env.task_pools },
        rw (gone, h) refl,
        task_pool-Extends name pool env,
        (pool, lookup-insert_self name pool env.task_pools),
      )
      | inr (p, there) ↦ (env, rw there refl, same-Extends env, (p, there))
    ]
register_pool-Registers (priority_task_pool name priority) env (pool, h) =
    elim (Option-cases (lookup name env.priority_task_pools)) [
      | inl gone ↦ (
        record env { priority_task_pools = insert name pool env.priority_task_pools },
        rw (gone, h) refl,
        priority_task_pool-Extends name pool env,
        (pool, lookup-insert_self name pool env.priority_task_pools),
      )
      | inr (p, there) ↦ (env, rw there refl, same-Extends env, (p, there))
    ]
register_pool-Registers function_call env h = (env, refl, same-Extends env, tt)
register_pool-Registers parallel_call env h = (env, refl, same-Extends env, tt)

pub register_pools-Registers :
    (cs : List CallSemantics) (env : Environment)
    → All (HasPool env.config.pools_by_name) cs
    → (later : Environment) × (register_pools cs env ≡ some later)
      × Extends env later
      × All (IsRegistered later) cs
unfolding register_pools
register_pools-Registers [] env h = (env, refl, same-Extends env, tt)
register_pools-Registers (c ∷ cs) env (h, hs) =
    let (next, step, (config, service, keep), first) = register_pool-Registers c env h in
    let (later, steps, (config', service', keep'), rest) =
      register_pools-Registers cs next
        (subst (λ (r : RuntimeConfig). All (HasPool r.pools_by_name) cs) (sym config) hs) in
    (
      later,
      rw step steps,
      (config' ∙ config, service' ∙ service, λ d g. keep' d (keep d g)),
      (keep' c first, rest),
    )

pub All-lookup {ℓ} :
    {K V : Type 0} ⦃eq : Eq K⦄ (P : CallSemantics → Type ℓ) (f : V → CallSemantics) (k : K)
    → (v : V) (m : List (K × V)) → All P (map f (values m))
    → lookup k m ≡ some v
    → P (f v)
unfolding lookup
All-lookup P f k v [] h at = absurd cc
All-lookup P f k v ((j, w) ∷ m) (h, hs) at = elim (Bool-cases (j == k)) [
  | inl same ↦ subst (λ x. P (f x)) (some_eq (sym (rw same refl) ∙ at)) h
  | inr apart ↦ All-lookup P f k v m hs (sym (rw apart refl) ∙ at)
]

pub All-append {ℓ} :
    (P : CallSemantics → Type ℓ) (xs ys : List CallSemantics)
    → All P (xs ++ ys)
    → All P xs × All P ys
All-append P [] ys h = (tt, h)
All-append P (x ∷ xs) ys (h, hs) = let (l, r) = All-append P xs ys hs in ((h, l), r)

pub append-All {ℓ} :
    (P : CallSemantics → Type ℓ) (xs ys : List CallSemantics)
    → All P xs
    → All P ys
    → All P (xs ++ ys)
append-All P [] ys h k = k
append-All P (x ∷ xs) ys (h, hs) k = (h, append-All P xs ys hs k)

-- What a caller does for a way to call: it calls the function, or in parallel, or through the pool that
-- is registered under the name, with the priority.
abbrev pub Through : Environment → CallSemantics → Caller → Type 0
Through env (task_pool name) k =
    (p : PoolConfig) × (lookup name env.task_pools ≡ some p) × (k ≡ calls_pool p)
Through env (priority_task_pool name priority) k =
    (p : PoolConfig) × (lookup name env.priority_task_pools ≡ some p)
    × (k ≡ calls_priority_pool p priority)
Through env function_call k = (is_async : Bool) × (k ≡ calls_function is_async)
Through env parallel_call k = k ≡ calls_parallel

pub make_caller-Through :
    (c : CallSemantics) (b : Bool) (env : Environment)
    → IsRegistered env c
    → (k : Caller) × (make_caller c b env ≡ some k) × Through env c k
unfolding make_caller
make_caller-Through function_call b env h = (_, refl, (b, refl))
make_caller-Through parallel_call b env h = (_, refl, refl)
make_caller-Through (task_pool name) b env (p, h) = (calls_pool p, rw h refl, (p, h, refl))
make_caller-Through (priority_task_pool name n) b env (p, h) =
    (calls_priority_pool p n, rw h refl, (p, h, refl))
