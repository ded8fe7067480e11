-- ===== src/Config/Runtime.antt =====
-- src/runtime/config/runtime.rs: the tables of a configuration and what `from_parts` demands of it. Ids
-- are numbers, of which only the equality matters, and so are the types of connectors. Of an entry
-- only what is looked at here is kept. `none` is the error `InvalidConfiguration`.
pub mod Pools
use Prim.Native.String.{String}
use rustservicelib.Base.Int.{ℤ}
use rustservicelib.Base.{
  ℕ, List, [], ◌∷◌, ◌++◌, map, Option, none, some, Bool, true, false, not, ◌&&◌, ◌||◌, ◌==◌, Eq,
  nat_eq, string_eq, pair_eq, lookup, insert, is_some, if◌then◌else◌, ◌>>=◌,
}

pub data CallSemantics : Type 0 where
  function_call : CallSemantics
  parallel_call : CallSemantics
  task_pool : String → CallSemantics
  priority_task_pool : String → ℤ → CallSemantics

pub record ServiceConfig : Type 0 where
  pub id : ℕ
  pub name : String
  pub default_call_semantics : CallSemantics

pub record StreamConfig : Type 0 where
  pub id : ℕ
  pub name : String

pub record PoolConfig : Type 0 where
  pub name : String
  pub executors_count : ℕ
  pub queue_capacity : ℕ

pub record DataConnector : Type 0 where
  pub id : ℕ
  pub name : String
  pub connector_type : ℕ

-- The time zone of an endpoint, where it has one.
pub data Schedule : Type 0 where
  cron : String → Schedule
  temporal : Bool → String → Schedule  -- whether it has a schedule
  unscheduled : Schedule

pub record Endpoint : Type 0 where
  pub id : ℕ
  pub name : String
  pub data_connector : ℕ
  pub connector_type : ℕ
  pub schedule : Schedule

pub record LinkConfig : Type 0 where
  pub from : ℕ
  pub to : ℕ
  pub is_async : Bool
  pub call_semantics : CallSemantics

-- The entries of a kind by their ids and by their names.
pub record Table {ℓ} (V : Type ℓ) : Type ℓ where
  pub by_id : List (ℕ × V)
  pub by_name : List (String × V)

pub record RuntimeConfig : Type 0 where
  pub default_call_semantics : CallSemantics
  pub services : Table ServiceConfig
  pub streams : Table StreamConfig
  pub pools_by_name : List (String × PoolConfig)
  pub data_connectors : Table DataConnector
  pub endpoints : Table Endpoint
  pub links : List ((ℕ × ℕ) × LinkConfig)

-- What comes in, in the order of `from_parts`.
pub record Parts : Type 0 where
  pub default_call_semantics : CallSemantics
  pub services : List ServiceConfig
  pub streams : List StreamConfig
  pub pools : List PoolConfig
  pub data_connectors : List DataConnector
  pub endpoints : List Endpoint
  pub links : List LinkConfig

abbrev empty_table {ℓ} : {V : Type ℓ} → Table V
empty_table = record { by_id = []; by_name = [] }

unfoldable pub with_default_call_semantics : CallSemantics → RuntimeConfig
with_default_call_semantics semantics = record {
  default_call_semantics = semantics;
  services = empty_table;
  streams = empty_table;
  pools_by_name = [];
  data_connectors = empty_table;
  endpoints = empty_table;
  links = [];
}

-- An entry of a new id and a new name.
unfoldable pub add_entry {ℓ} : {V : Type ℓ} → ℕ → String → V → Table V → Option (Table V)
add_entry id name v t =
    if is_some (lookup id t.by_id) || is_some (lookup name t.by_name)
    then none
    else some (record { by_id = insert id v t.by_id; by_name = insert name v t.by_name })

-- Entries one after the other, up to the first error.
unfoldable pub add_all {ℓ κ} :
    {V : Type ℓ} {R : Type κ} → (V → R → Option R) → List V → R → Option R
add_all add [] r = some r
add_all add (v ∷ vs) r = add v r >>= add_all add vs

unfoldable pub add_pool :
    PoolConfig → List (String × PoolConfig) → Option (List (String × PoolConfig))
add_pool p pools = if is_some (lookup p.name pools) then none else some (insert p.name p pools)

-- A schedule is in UTC.
abbrev is_valid_schedule : Schedule → Bool
is_valid_schedule (cron zone) = zone == "UTC"
is_valid_schedule (temporal scheduled zone) = not scheduled || (zone == "UTC")
is_valid_schedule unscheduled = true

unfoldable pub add_endpoint :
    Table DataConnector → Endpoint → Table Endpoint → Option (Table Endpoint)
add_endpoint connectors p t = add_entry p.id p.name p t >>= λ more.
    lookup p.data_connector connectors.by_id >>= λ c.
    if (c.connector_type == p.connector_type) && is_valid_schedule p.schedule
    then some more
    else none

unfoldable pub add_link :
    LinkConfig → List ((ℕ × ℕ) × LinkConfig) → Option (List ((ℕ × ℕ) × LinkConfig))
add_link l links =
    if is_some (lookup (l.from, l.to) links) then none else some (insert (l.from, l.to) l links)

abbrev pub values {ℓ κ} : {K : Type ℓ} {V : Type κ} → List (K × V) → List V
values [] = []
values ((k, v) ∷ m) = v ∷ values m

unfoldable pub referenced_pools : RuntimeConfig → List CallSemantics
referenced_pools r =
    r.default_call_semantics
    ∷ (map (λ (s : ServiceConfig). s.default_call_semantics) (values r.services.by_id)
        ++ map (λ (l : LinkConfig). l.call_semantics) (values r.links))

abbrev or_default_pool :
    Option PoolConfig → String → List (String × PoolConfig) → List (String × PoolConfig)
or_default_pool (some p) name pools = pools
or_default_pool none name pools =
    insert name (record { name = name; executors_count = 1; queue_capacity = 0 }) pools

-- `entry(pool_name).or_insert_with(..)`.
abbrev or_insert_pool : String → List (String × PoolConfig) → List (String × PoolConfig)
or_insert_pool name pools = or_default_pool (lookup name pools) name pools

unfoldable pub complete_pool :
    CallSemantics → List (String × PoolConfig) → List (String × PoolConfig)
complete_pool (task_pool name) pools = or_insert_pool name pools
complete_pool (priority_task_pool name priority) pools = or_insert_pool name pools
complete_pool function_call pools = pools
complete_pool parallel_call pools = pools

unfoldable pub complete_pools :
    List CallSemantics → List (String × PoolConfig) → List (String × PoolConfig)
complete_pools [] pools = pools
complete_pools (c ∷ cs) pools = complete_pools cs (complete_pool c pools)

-- The loops over what comes in, one kind after the other.
unfoldable pub fill_tables : Parts → Option RuntimeConfig
fill_tables p = add_all (λ s. add_entry s.id s.name s) p.services empty_table >>= λ services.
    add_all (λ s. add_entry s.id s.name s) p.streams empty_table >>= λ streams.
    add_all add_pool p.pools [] >>= λ pools.
    add_all (λ c. add_entry c.id c.name c) p.data_connectors empty_table >>= λ connectors.
    add_all (add_endpoint connectors) p.endpoints empty_table >>= λ endpoints.
    add_all add_link p.links [] >>= λ links.
    some (record (with_default_call_semantics p.default_call_semantics) {
      services = services;
      streams = streams;
      pools_by_name = pools;
      data_connectors = connectors;
      endpoints = endpoints;
      links = links;
    })

-- The pools that are referred to and not there.
abbrev pub completed : RuntimeConfig → RuntimeConfig
completed r = record r { pools_by_name = complete_pools (referenced_pools r) r.pools_by_name }

unfoldable pub from_parts : Parts → Option RuntimeConfig
from_parts p = fill_tables p >>= λ r. some (completed r)
