-- ===== src/Samples/Batches.antt =====
-- The requests of a batch of creates.
use ferrum_edge_git_forge_op.Base.{
  ℕ, ◌*◌, codes, List, [], none, ◌∷◌, ◌≡◌, refl, text_eq, nat_eq, Result, ok,
}
use ferrum_edge_git_forge_op.Base.Map
use ferrum_edge_git_forge_op.Config.{Proxy}
use ferrum_edge_git_forge_op.Apply.Groups.{BatchCreate, empty_batch, batch_dependency_groups}
use ferrum_edge_git_forge_op.Apply.Groups.Split.{len, body_budget, extend, pack, split_batch}
use ferrum_edge_git_forge_op.Apply.Groups.Packing.{Packed, split_batch_lem}
use ferrum_edge_git_forge_op.Apply.Outcome.{Error}
use ferrum_edge_git_forge_op.Samples.{route, client}

-- Every row takes 300 bytes.
abbrev three_hundred : BatchCreate → Result Error ℕ
three_hundred group = ok (300 * len group)

abbrev proxy_p : Proxy
proxy_p = route (codes "n") (codes "p") none (codes "/p")

abbrev creates : BatchCreate
creates = record empty_batch {
  proxies = proxy_p ∷ [];
  consumers = client (codes "n") (codes "b") ∷ client (codes "n") (codes "a") ∷ [];
}

-- In the order of the ids, two rows to a request.
abbrev requests : List BatchCreate
requests =
    record empty_batch {
      consumers = client (codes "n") (codes "a") ∷ client (codes "n") (codes "b") ∷ [];
    }
    ∷ record empty_batch { proxies = proxy_p ∷ [] }
    ∷ []

two_requests : split_batch three_hundred creates 1112 ≡ ok requests
unfolding split_batch batch_dependency_groups pack body_budget extend text_eq Map.insert Map.get
    nat_eq
two_requests = refl

split_batch_lem_example :
    (chunks : List BatchCreate) × (split_batch three_hundred creates 1112 ≡ ok chunks)
    × Packed three_hundred (body_budget 1112) (batch_dependency_groups creates) chunks
split_batch_lem_example =
    split_batch_lem three_hundred (λ group. 300 * len group) (λ group. refl) creates 1112
