-- ===== src/Samples/Keys.antt =====
-- State keys and identities at concrete resources.
use ferrum_edge_git_forge_op.Base.{
  codes, [], ◌≡◌, ◌↔◌, refl, none, some, text_eq, contains, ok, is_empty, if◌then◌else◌, not, ◌&&◌,
}
use ferrum_edge_git_forge_op.StateKey.{
  state_key, encode_state_key_component, decode_state_key_component, state_key_namespace, proxy,
  consumer, is_state_key_kind,
}
use ferrum_edge_git_forge_op.StateKey.Laws.{
  proxy-Free, consumer-Free, decode-encode, state_key_namespace-state_key, state_key-injective,
}
use ferrum_edge_git_forge_op.Config.Identity.{
  Identity, identity_eq, key_of, identities, from_config, validate_unique_resource_keys,
}
use ferrum_edge_git_forge_op.Config.Identity.Laws.{
  Fresh, validate_unique-Fresh, contains-from_config,
}
use ferrum_edge_git_forge_op.Samples.{ns, repository}

key_of_escaped :
    state_key (codes "a:b%") (codes "Proxy") (codes "x")
    ≡ codes "__gitforgeops_state_key_v2:a%3Ab%25:Proxy:x"
unfolding state_key encode_state_key_component
key_of_escaped = refl

namespace_of_escaped :
    state_key_namespace (codes "__gitforgeops_state_key_v2:a%3Ab%25:Proxy:x:y")
    ≡ some (codes "a:b%")
unfolding state_key_namespace decode_state_key_component text_eq
namespace_of_escaped = refl

lower_case_escape : decode_state_key_component (codes "%3a%2%") ≡ codes ":%2%"
unfolding decode_state_key_component
lower_case_escape = refl

unknown_kind : state_key_namespace (codes "__gitforgeops_state_key_v2:a:Route:x") ≡ none
unfolding state_key_namespace decode_state_key_component text_eq
unknown_kind = refl

decode-encode_example :
    decode_state_key_component (encode_state_key_component (codes "a:b%")) ≡ codes "a:b%"
decode-encode_example = decode-encode (codes "a:b%")

state_key_namespace-state_key_example : state_key_namespace (state_key ns proxy (codes "p")) ≡ (
    if not (is_empty ns) && not (is_empty (codes "p")) && is_state_key_kind proxy
    then some ns
    else none)
state_key_namespace-state_key_example =
    state_key_namespace-state_key ns proxy (codes "p") proxy-Free

state_key-injective_example : (ns ≡ ns) × (proxy ≡ proxy) × (codes "p" ≡ codes "p")
state_key-injective_example =
    state_key-injective ns proxy (codes "p") ns proxy (codes "p") proxy-Free proxy-Free refl

validate_unique-Fresh_example :
    (validate_unique_resource_keys repository ≡ ok tt) ↔ Fresh [] (identities repository)
validate_unique-Fresh_example = validate_unique-Fresh repository

abbrev consumer_c : Identity
consumer_c = record { namespace = ns; kind = consumer; id = codes "c" }

contains-from_config_example :
    contains (from_config repository) (key_of consumer_c)
    ≡ contains (identities repository) consumer_c
contains-from_config_example = contains-from_config repository consumer_c consumer-Free
