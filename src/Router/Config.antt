-- ===== src/Router/Config.antt =====
-- driftdriver/task_router.py: `load_routing_config` and `_read_graph_lines`.
use driftdriver.Base.{String, false, Option, none, some, List, [], ◌∷◌}
use driftdriver.Base.Value.{
  Value, null, bool, str, dict, Fields, field, end, Fault, Result, ok, err, ◌>>=◌, truthy, get,
  get_or,
}
use driftdriver.Base.Platform.{Platform, str_of}
use driftdriver.Budget.Policy.{Dict}
use driftdriver.Router.Match.{ExecutorConfig, RoutingConfig}

abbrev pub no_routing : RoutingConfig
no_routing = record { enabled = false; default_executor = "wg-daemon"; executors = [] }

abbrev text_at : Platform → String → String → Fields → String
text_at p key default d = str_of p (get_or key (str default) d)

unfoldable pub read_executor : Platform → String → Value → Result ExecutorConfig
read_executor p name (dict cfg) = ok (record {
  name = name;
  kind = text_at p "type" "wg-daemon" cfg;
  endpoint = text_at p "endpoint" "" cfg;
  tag_match = text_at p "tag_match" "" cfg;
})
read_executor p name v = err Fault.attribute_error

unfoldable pub read_each_executor : Platform → Fields → Result (Dict ExecutorConfig)
read_each_executor p end = ok []
read_each_executor p (field name cfg rest) =
    read_executor p name cfg >>= λ x. read_each_executor p rest >>= λ xs. ok ((name, x) ∷ xs)

unfoldable pub read_executors : Platform → Value → Result (Dict ExecutorConfig)
read_executors p (dict raw) = read_each_executor p raw
read_executors p v = err Fault.attribute_error

unfoldable pub read_routing : Platform → Value → Result RoutingConfig
read_routing p null = ok no_routing
read_routing p (dict routing) = read_executors p (get_or "executors" (dict end) routing) >>= λ xs.
    ok (record {
      enabled = truthy (get_or "enabled" (bool false) routing);
      default_executor = text_at p "default_executor" "wg-daemon" routing;
      executors = xs;
    })
read_routing p v = err Fault.attribute_error

-- `load_routing_config`, of the policy file after `tomllib`, `none` where it is missing
unfoldable pub load_routing_config : Platform → Option (Result Fields) → Result RoutingConfig
load_routing_config p none = ok no_routing
load_routing_config p (some (err e)) = err e
load_routing_config p (some (ok policy)) = read_routing p (get "routing" policy)

-- `_read_graph_lines`: the JSON of the lines that are no blank line and are JSON, in their order.
unfoldable pub read_graph_lines : List (Option Value) → List Value
read_graph_lines [] = []
read_graph_lines (none ∷ lines) = read_graph_lines lines
read_graph_lines (some v ∷ lines) = v ∷ read_graph_lines lines
