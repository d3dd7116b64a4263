-- ===== src/Router/Ecosystem.antt =====
-- driftdriver/task_router.py: `route_ecosystem`, over the repositories of a workspace.
use driftdriver.Base.{
  ℕ, ◌≡◌, refl, String, Bool, true, false, not, ◌&&◌, ◌||◌, Option, none, some, List, [], ◌∷◌,
  count_if, is_empty, if◌then◌else◌,
}
use driftdriver.Base.Value.{Value, Fields, Fault, Result, ok, err, ◌>>=◌}
use driftdriver.Base.Platform.{Platform}
use driftdriver.Router.Match.{RoutingConfig}
use driftdriver.Router.Config.{load_routing_config, read_graph_lines}
use driftdriver.Router.Act.{Outside, Happening, Run}
use driftdriver.Router.Dispatch.{DispatchResult}
use driftdriver.Router.Loop.{route_ready_tasks}
use driftdriver.Router.Guarded.{start}

-- A repository with a graph: its policy file after `tomllib`, the `speedriftd` section that holds for it,
-- the lines of its graph, and what its router meets.
pub record Repo : Type 0 where
  pub policy : Option (Result Fields)
  pub cfg : Fields
  pub lines : List (Option Value)
  pub outside : Outside

-- What a name in the workspace leads to: no graph, two directories in conflict, or a repository.
pub data Site : Type 0 where
  no_workgraph two_workgraphs : Site
  repo_at : Repo → Site

-- The entry of a repository in the result.
pub data Summary : Type 0 where
  skipped_site : Summary
  routed : (dispatched skipped : ℕ) → List String → List DispatchResult → Summary

abbrev pub config_for : Platform → RoutingConfig → Option (Result Fields) → Result RoutingConfig
config_for p config none = ok config
config_for p config (some policy) = load_routing_config p (some policy)

abbrev error_text : Option String → List String → List String
error_text none es = es
error_text (some e) es = if is_empty e then es else e ∷ es

-- `[r.error for r in results if r.error]`
unfoldable pub errors_of : List DispatchResult → List String
errors_of [] = []
errors_of (r ∷ rs) = error_text r.error (errors_of rs)

abbrev pub was_dispatched : DispatchResult → Bool
was_dispatched r = r.dispatched

abbrev pub not_dispatched : DispatchResult → Bool
not_dispatched r = not r.dispatched

unfoldable pub summary_of : List DispatchResult → Summary
summary_of rs = routed (count_if was_dispatched rs) (count_if not_dispatched rs) (errors_of rs) rs

abbrev summarised : Run × Result (List DispatchResult) → List Happening × Result Summary
summarised (r, ok rs) = (r.happenings, ok (summary_of rs))
summarised (r, err e) = (r.happenings, err e)

unfoldable pub route_configured :
    Platform → Repo → Result RoutingConfig → List Happening × Result Summary
route_configured p repo (err e) = ([], err e)
route_configured p repo (ok config) =
    summarised
      (route_ready_tasks p repo.outside repo.cfg config (read_graph_lines repo.lines) start)

-- One turn of the loop, with what happened in the repository.
unfoldable pub route_site : Platform → RoutingConfig → Site → List Happening × Result Summary
route_site p config no_workgraph = ([], ok skipped_site)
route_site p config two_workgraphs = ([], err Fault.conflict_error)
route_site p config (repo_at repo) = route_configured p repo (config_for p config repo.policy)

abbrev noted :
    String
    → List Happening × Result Summary
    → List (String × List Happening) × Result (List (String × Summary))
    → List (String × List Happening) × Result (List (String × Summary))
noted name (hs, err e) rest = ((name, hs) ∷ [], err e)
noted name (hs, ok s) (traces, err e) = ((name, hs) ∷ traces, err e)
noted name (hs, ok s) (traces, ok ss) = ((name, hs) ∷ traces, ok ((name, s) ∷ ss))

-- The loop over distinct names: what happened in each repository that was reached, and the summaries.
unfoldable pub route_names :
    Platform
    → RoutingConfig
    → (String → Site)
    → List String
    → List (String × List Happening) × Result (List (String × Summary))
route_names p config site [] = ([], ok [])
route_names p config site (name ∷ names) =
    noted name (route_site p config (site name)) (route_names p config site names)

-- The directories .workgraph and .wg of a directory: whether they exist, and whether they are initialised.
pub record Graphs : Type 0 where
  pub legacy_there : Bool
  pub legacy_initialized : Bool
  pub current_there : Bool
  pub current_initialized : Bool

-- `resolve_workgraph_dir` without an explicit directory: whether the one that it answers is initialised.
unfoldable pub resolve_workgraph_dir : Graphs → Result Bool
resolve_workgraph_dir g =
    if g.legacy_initialized && g.current_initialized
    then err Fault.conflict_error
    else if g.legacy_initialized || g.current_initialized
    then ok true
    else if g.legacy_there && g.current_there
    then err Fault.conflict_error
    else ok false

-- The names of the entries of the workspace that are directories with an initialised graph; `none` is an
-- entry that is no directory.
unfoldable pub discover : List (String × Option Graphs) → Result (List String)
discover [] = ok []
discover ((name, none) ∷ entries) = discover entries
discover ((name, some g) ∷ entries) = resolve_workgraph_dir g >>= λ initialized.
    discover entries >>= λ names. ok (if initialized then name ∷ names else names)

unfoldable pub route_discovered :
    Platform
    → RoutingConfig
    → (String → Site)
    → Result (List String)
    → List (String × List Happening) × Result (List (String × Summary))
route_discovered p config site (err e) = ([], err e)
route_discovered p config site (ok names) = route_names p config site names

-- `route_ecosystem`, with the entries of the workspace and what its names lead to; `none` are no names.
unfoldable pub route_ecosystem :
    Platform
    → RoutingConfig
    → List (String × Option Graphs)
    → (String → Site)
    → Option (List String)
    → List (String × List Happening) × Result (List (String × Summary))
route_ecosystem p config entries site none = route_discovered p config site (discover entries)
route_ecosystem p config entries site (some names) = route_names p config site names

discover_test :
    discover (
      (
        "app",
        some (record {
          legacy_there = true;
          legacy_initialized = false;
          current_there = true;
          current_initialized = true;
        }),
      )
      ∷ ("notes", none)
      ∷ [])
    ≡ ok ("app" ∷ [])
unfolding discover resolve_workgraph_dir
discover_test = refl
