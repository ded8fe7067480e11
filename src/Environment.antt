-- ===== src/Environment.antt =====
-- src/runtime/environment/mod.rs: the pools and the ways to call between streams, with
-- `register_configured_pools` of src/runtime/serviceapp.rs and the caller that a link gets in
-- src/runtime/collector.rs. A pool is the configuration that it was made from. `none` is an error.
-- Metrics are left out.
pub mod Registers
pub mod Resolve
use Prim.Native.String.{String}
use rustservicelib.Base.Int.{ℤ}
use rustservicelib.Base.{
  ℕ, List, [], ◌∷◌, ◌++◌, map, Option, none, some, Bool, true, false, ◌==◌, Eq, nat_eq, string_eq,
  pair_eq, lookup, insert, lookup-insert, lookup-insert_self, is_some, if◌then◌else◌, ◌>>=◌,
  map_option, All, some_eq, bind-some, ◌≡◌, refl, sym, ◌∙◌, ap, subst, inl, inr, ◌⊎◌, Bool-cases,
  Option-cases, arith,
}
use rustservicelib.Config.Runtime.{
  CallSemantics, ServiceConfig, PoolConfig, LinkConfig, RuntimeConfig, Parts, function_call,
  parallel_call, task_pool, priority_task_pool, values, referenced_pools, from_parts,
}
use rustservicelib.Config.Runtime.Pools.{HasPool, from_parts-HasPool}

pub record Environment : Type 0 where
  pub config : RuntimeConfig
  pub service_id : Option ℕ
  pub task_pools : List (String × PoolConfig)
  pub priority_task_pools : List (String × PoolConfig)

-- `QueuedPool::new`: the configuration of the pool has to be there.
unfoldable pub new_pool : String → Environment → Option PoolConfig
new_pool name env = lookup name env.config.pools_by_name

unfoldable pub register_task_pool : String → PoolConfig → Environment → Option Environment
register_task_pool name pool env =
    if is_some (lookup name env.task_pools)
    then none
    else some (record env { task_pools = insert name pool env.task_pools })

unfoldable pub register_priority_task_pool : String → PoolConfig → Environment → Option Environment
register_priority_task_pool name pool env =
    if is_some (lookup name env.priority_task_pools)
    then none
    else some (record env { priority_task_pools = insert name pool env.priority_task_pools })

-- One round of the loop of `register_configured_pools`.
unfoldable pub register_pool : CallSemantics → Environment → Option Environment
register_pool (task_pool name) env =
    if is_some (lookup name env.task_pools)
    then some env
    else new_pool name env >>= λ pool. register_task_pool name pool env
register_pool (priority_task_pool name priority) env =
    if is_some (lookup name env.priority_task_pools)
    then some env
    else new_pool name env >>= λ pool. register_priority_task_pool name pool env
register_pool function_call env = some env
register_pool parallel_call env = some env

unfoldable pub register_pools : List CallSemantics → Environment → Option Environment
register_pools [] env = some env
register_pools (c ∷ cs) env = register_pool c env >>= register_pools cs

abbrev service_semantics : Option ServiceConfig → CallSemantics → CallSemantics
service_semantics (some service) default_one = service.default_call_semantics
service_semantics none default_one = default_one

abbrev service_of : Environment → Option ServiceConfig
service_of env = env.service_id >>= λ id. lookup id env.config.services.by_id

unfoldable pub default_semantics : Environment → CallSemantics
default_semantics env = service_semantics (service_of env) env.config.default_call_semantics

unfoldable pub register_configured_pools : Environment → Option Environment
register_configured_pools env =
    register_pools
      (map (λ (l : LinkConfig). l.call_semantics) (values env.config.links)
        ++ default_semantics env ∷ [])
      env

abbrev link_semantics : Option LinkConfig → CallSemantics → CallSemantics
link_semantics (some l) default_one = l.call_semantics
link_semantics none default_one = default_one

unfoldable pub call_semantics : ℕ → ℕ → Environment → CallSemantics
call_semantics from to env =
    link_semantics (lookup (from, to) env.config.links) (default_semantics env)

abbrev calls_async : Option LinkConfig → Bool
calls_async none = false
calls_async (some l) = elim l.call_semantics [
  | function_call ↦ l.is_async
  | parallel_call ↦ false
  | task_pool name ↦ false
  | priority_task_pool name priority ↦ false
]

unfoldable pub function_call_async : ℕ → ℕ → Environment → Bool
function_call_async from to env = calls_async (lookup (from, to) env.config.links)

pub data Caller : Type 0 where
  calls_function : Bool → Caller
  calls_parallel : Caller
  calls_pool : PoolConfig → Caller
  calls_priority_pool : PoolConfig → ℤ → Caller

-- `LinkCollector::new`: how a link calls its consumer.
unfoldable pub make_caller : CallSemantics → Bool → Environment → Option Caller
make_caller function_call is_async env = some (calls_function is_async)
make_caller parallel_call is_async env = some calls_parallel
make_caller (task_pool name) is_async env = map_option calls_pool (lookup name env.task_pools)
make_caller (priority_task_pool name priority) is_async env =
    map_option (λ pool. calls_priority_pool pool priority) (lookup name env.priority_task_pools)

unfoldable pub link_caller : ℕ → ℕ → Environment → Option Caller
link_caller from to env =
    make_caller (call_semantics from to env) (function_call_async from to env) env
