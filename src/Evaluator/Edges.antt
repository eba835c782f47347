-- ===== src/Evaluator/Edges.antt =====
-- crates/evaluator/src/builds.rs, `resolve_dependency_pairs`: the dependency edges between the builds of
-- an evaluation. A map is the list of its entries, the newest of a key first.
pub mod Exact
use circus.Common.{
  Bool, true, false, not, ◌&&◌, List, [], ◌∷◌, ◌++◌, Option, none, some, String, any, ◌==◌,
  if◌then◌else◌,
}
use circus.Rpc.Agent.{Uuid}
use circus.Evaluator.Graph.{NixJob, get, items}

-- A build, and the build that it depends on.
abbrev pub Edge : Type 0
Edge = Uuid × Uuid

abbrev pub has_edge : Uuid → Uuid → List Edge → Bool
has_edge a b edges = any (λ e. e.0 == a && e.1 == b) edges

pub record Resolved : Type 0 where
  pub seen : List Edge
  pub pairs : List Edge

-- `insert` answers whether the edge is new.
unfoldable pub add_edge : Uuid → Option Uuid → Resolved → Resolved
add_edge build_id none s = s
add_edge build_id (some dep_build_id) s =
    if not (dep_build_id == build_id) && not (has_edge build_id dep_build_id s.seen)
    then record {
      seen = (build_id, dep_build_id) ∷ s.seen;
      pairs = s.pairs ++ ((build_id, dep_build_id) ∷ []);
    }
    else s

unfoldable pub add_edges : List (String × Uuid) → Uuid → List String → Resolved → Resolved
unfolding get add_edge
add_edges builds build_id [] s = s
add_edges builds build_id (key ∷ keys) s =
    add_edges builds build_id keys (add_edge build_id (get builds key) s)

module _ (drv_to_build name_to_build : List (String × Uuid)) where
  -- The loop over `jobs.iter().zip(build_ids)`.
  unfoldable pub resolve_jobs : List NixJob → List Uuid → Resolved → Resolved
  unfolding add_edges
  resolve_jobs (job ∷ jobs) (build_id ∷ ids) s = resolve_jobs jobs ids (
      add_edges name_to_build build_id (items job.constituents)
        (add_edges drv_to_build build_id (items job.input_drvs) s))
  resolve_jobs _ _ s = s

  unfoldable pub resolve_dependency_pairs : List NixJob → List Uuid → List Edge
  unfolding resolve_jobs
  resolve_dependency_pairs jobs ids =
      (resolve_jobs jobs ids (record { seen = []; pairs = [] })).pairs
