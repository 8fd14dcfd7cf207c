-- ===== src/Samples/Adoptions.antt =====
-- An adoption of a row that already matches.
use ferrum_edge_git_forge_op.Base.{
  codes, [], ◌∷◌, ◌++◌, map, ◌≡◌, refl, true, false, ◌&&◌, ◌||◌, none, text_eq, select,
}
use ferrum_edge_git_forge_op.Json.{with_members}
use ferrum_edge_git_forge_op.Base.HashMap.{any}
use ferrum_edge_git_forge_op.StateKey.{state_key, encode_state_key_component, consumer}
use ferrum_edge_git_forge_op.Config.{GatewayConfig}
use ferrum_edge_git_forge_op.Config.Identity.{identity_eq}
use ferrum_edge_git_forge_op.Diff.{Row, row_eq, exclusive}
use ferrum_edge_git_forge_op.Apply.Changes.{key_of}
use ferrum_edge_git_forge_op.Apply.Index.{build}
use ferrum_edge_git_forge_op.Apply.Outcome.{default_result}
use ferrum_edge_git_forge_op.Apply.Adopt.Laws.{claimable, declared_equal}
use ferrum_edge_git_forge_op.Apply.Claim.{Claiming, adopt_matching_rows}
use ferrum_edge_git_forge_op.Apply.Claim.Laws.{owns, adopt_matching_rows_lem}
use ferrum_edge_git_forge_op.Samples.{ns, client, empty_config, repository}
use ferrum_edge_git_forge_op.Samples.Applies.{silent}

-- The consumer is live as the repository declares it.
abbrev matching : GatewayConfig
matching = record empty_config { consumers = client ns (codes "c") ∷ [] }

abbrev start : Claiming
start = record { result = default_result; requests = []; returned = false }

abbrev row_c : Row
row_c = record { namespace = ns; id = codes "c" }

finished : Claiming
unfolding adopt_matching_rows state_key encode_state_key_component text_eq row_eq identity_eq any
    select with_members
finished =
    adopt_matching_rows silent (build repository) repository matching exclusive [] [] [] none start

claims_c :
    owns consumer row_c
      (adopt_matching_rows silent
        (build repository)
        repository
        matching
        exclusive
        []
        []
        []
        none
        start).result.adopted
    ≡ true
unfolding finished
claims_c = refl

adopt_matching_rows_lem_example :
    (owns consumer row_c start.result.adopted
      || (claimable [] (map key_of [] ++ []) (build matching) consumer row_c
          && declared_equal consumer row_c repository (build matching)))
    ≡ true
adopt_matching_rows_lem_example =
    adopt_matching_rows_lem silent (build repository) repository matching exclusive [] [] [] none
      start consumer row_c claims_c
