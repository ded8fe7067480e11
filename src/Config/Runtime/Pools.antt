-- ===== src/Config/Runtime/Pools.antt =====
-- A configuration of src/runtime/config/runtime.rs has every pool that it refers to.
use Prim.Native.String.{String}
use rustservicelib.Base.{
  List, [], ◌∷◌, Option, none, some, ◌==◌, string_eq, lookup, lookup-insert, lookup-insert_self,
  All, bind-some, some_eq, ◌≡◌, refl, ◌∙◌, subst, inl, inr, Bool-cases,
}
use rustservicelib.Config.Runtime.{
  CallSemantics, PoolConfig, RuntimeConfig, Parts, function_call, parallel_call, task_pool,
  priority_task_pool, referenced_pools, or_default_pool, or_insert_pool, fill_tables, completed,
  complete_pool, complete_pools, from_parts,
}

abbrev Named : String → List (String × PoolConfig) → Type 0
Named name pools = (c : PoolConfig) × (lookup name pools ≡ some c)

-- The pool of a way to call is configured.
abbrev pub HasPool : List (String × PoolConfig) → CallSemantics → Type 0
HasPool pools (task_pool name) = Named name pools
HasPool pools (priority_task_pool name priority) = Named name pools
HasPool pools function_call = Unit
HasPool pools parallel_call = Unit

or_insert_pool-Named :
    (name : String) (pools : List (String × PoolConfig)) → Named name (or_insert_pool name pools)
or_insert_pool-Named name pools = there (lookup name pools) refl
  where
    there :
        (o : Option PoolConfig) → lookup name pools ≡ o → Named name (or_default_pool o name pools)
    there none h = (_, lookup-insert_self name _ pools)
    there (some c) h = (c, h)

or_insert_pool-keeps :
    (name other : String) (pools : List (String × PoolConfig))
    → Named other pools
    → Named other (or_insert_pool name pools)
or_insert_pool-keeps name other pools (c, h) = kept (lookup name pools)
  where
    kept : (o : Option PoolConfig) → Named other (or_default_pool o name pools)
    kept (some d) = (c, h)
    kept none =
        let d : PoolConfig = record { name = name; executors_count = 1; queue_capacity = 0 } in
        elim (Bool-cases (name == other)) [
          | inl same ↦ (d, lookup-insert name other d pools ∙ rw same refl)
          | inr apart ↦ (c, lookup-insert name other d pools ∙ rw apart h)
        ]

complete_pool-Named :
    (c : CallSemantics) (name : String) (pools : List (String × PoolConfig))
    → Named name pools
    → Named name (complete_pool c pools)
unfolding complete_pool
complete_pool-Named (task_pool n) name pools h = or_insert_pool-keeps n name pools h
complete_pool-Named (priority_task_pool n p) name pools h = or_insert_pool-keeps n name pools h
complete_pool-Named function_call name pools h = h
complete_pool-Named parallel_call name pools h = h

complete_pools-Named :
    (cs : List CallSemantics) (name : String) (pools : List (String × PoolConfig))
    → Named name pools
    → Named name (complete_pools cs pools)
unfolding complete_pools
complete_pools-Named [] name pools h = h
complete_pools-Named (c ∷ cs) name pools h =
    complete_pools-Named cs name (complete_pool c pools) (complete_pool-Named c name pools h)

-- Completed for one way to call, and for others after it.
complete_pools-first :
    (c : CallSemantics) (cs : List CallSemantics) (pools : List (String × PoolConfig))
    → HasPool (complete_pools cs (complete_pool c pools)) c
unfolding complete_pool
complete_pools-first (task_pool n) cs pools =
    complete_pools-Named cs n (or_insert_pool n pools) (or_insert_pool-Named n pools)
complete_pools-first (priority_task_pool n p) cs pools =
    complete_pools-Named cs n (or_insert_pool n pools) (or_insert_pool-Named n pools)
complete_pools-first function_call cs pools = tt
complete_pools-first parallel_call cs pools = tt

complete_pools-HasPool :
    (cs : List CallSemantics) (pools : List (String × PoolConfig))
    → All (HasPool (complete_pools cs pools)) cs
unfolding complete_pools
complete_pools-HasPool [] pools = tt
complete_pools-HasPool (c ∷ cs) pools =
    (complete_pools-first c cs pools, complete_pools-HasPool cs (complete_pool c pools))

-- In a configuration that `from_parts` accepts, every way to call that it mentions, the default, those of
-- the services and those of the links, has a pool.
pub from_parts-HasPool :
    (p : Parts) (r : RuntimeConfig)
    → from_parts p ≡ some r
    → All (HasPool r.pools_by_name) (referenced_pools r)
unfolding from_parts referenced_pools
from_parts-HasPool p r h =
    let (c, _, same) = bind-some (fill_tables p) (λ c. some (completed c)) r h in
    subst (λ (c : RuntimeConfig). All (HasPool c.pools_by_name) (referenced_pools c)) (some_eq same)
      (complete_pools-HasPool (referenced_pools c) c.pools_by_name)
