-- ===== src/Examples/LinkRuns.antt =====
-- A configuration that refers to a pool which it does not configure, and two that are refused.
use Prim.Native.String.{String}
use rustservicelib.Base.{ℕ, [], ◌∷◌, Option, none, some, false, ◌≡◌, refl, lookup, insert}
use rustservicelib.Base.Int.{pos}
use rustservicelib.Config.Runtime.{
  CallSemantics, Parts, RuntimeConfig, function_call, task_pool, priority_task_pool, cron,
  from_parts, fill_tables, add_all, add_entry, add_pool, add_endpoint, add_link, complete_pools,
  complete_pool, referenced_pools, with_default_call_semantics,
}
use rustservicelib.Environment.{Environment, Caller, link_caller, register_configured_pools}
use rustservicelib.Environment.Resolve.{links_resolve, IsChosen}
use rustservicelib.Environment.Registers.{Through}

abbrev parts : String → Parts
parts zone = record {
  default_call_semantics = function_call;
  services = record { id = 1; name = "orders"; default_call_semantics = task_pool "shared" } ∷ [];
  streams = record { id = 10; name = "in" } ∷ record { id = 11; name = "out" } ∷ [];
  pools = record { name = "shared"; executors_count = 4; queue_capacity = 100 } ∷ [];
  data_connectors = record { id = 20; name = "clock"; connector_type = 3 } ∷ [];
  endpoints =
      record {
        id = 30;
        name = "tick";
        data_connector = 20;
        connector_type = 3;
        schedule = cron zone;
      }
      ∷ [];
  links =
      record {
        from = 10;
        to = 11;
        is_async = false;
        call_semantics = priority_task_pool "urgent" (pos 2);
      }
      ∷ [];
}

abbrev config_of : Option RuntimeConfig → RuntimeConfig
config_of (some r) = r
config_of none = record {
  default_call_semantics = function_call;
  services = record { by_id = []; by_name = [] };
  streams = record { by_id = []; by_name = [] };
  pools_by_name = [];
  data_connectors = record { by_id = []; by_name = [] };
  endpoints = record { by_id = []; by_name = [] };
  links = [];
}

abbrev config : RuntimeConfig
config = config_of (from_parts (parts "UTC"))

accepted_run : from_parts (parts "UTC") ≡ some config
unfolding from_parts fill_tables add_all add_entry add_pool add_endpoint add_link complete_pools
    complete_pool referenced_pools with_default_call_semantics lookup insert
accepted_run = refl

zone_refused : from_parts (parts "Europe/Moscow") ≡ none
unfolding from_parts fill_tables add_all add_entry add_pool add_endpoint add_link complete_pools
    complete_pool referenced_pools with_default_call_semantics lookup insert
zone_refused = refl

abbrev environment : Environment
environment = record {
  config = config;
  service_id = some 1;
  task_pools = [];
  priority_task_pools = [];
}

links_resolve_example :
    (later : Environment) × (register_configured_pools environment ≡ some later)
    × ((from to : ℕ)
        → (c : CallSemantics) × IsChosen config environment.service_id from to c
          × ((k : Caller) × (link_caller from to later ≡ some k) × Through later c k))
links_resolve_example = links_resolve (parts "UTC") config environment accepted_run refl
