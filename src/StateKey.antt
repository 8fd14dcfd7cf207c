-- ===== src/StateKey.antt =====
-- diff/resource_diff.rs: the ledger's keys `__gitforgeops_state_key_v2:<namespace>:<kind>:<id>`,
-- their percent escapes and their parser.
pub mod Laws
use ferrum_edge_git_forge_op.Base.{
  ℕ, zero, suc, Text, codes, List, [], ◌∷◌, ◌++◌, Bool, true, false, ◌&&◌, ◌||◌, not, Option, none,
  some, eqb, is_empty, contains, text_eq, ◌==◌, if◌then◌else◌,
}

abbrev pub state_key_prefix : Text
state_key_prefix = codes "__gitforgeops_state_key_v2"

abbrev pub proxy : Text
proxy = codes "Proxy"

abbrev pub consumer : Text
consumer = codes "Consumer"

abbrev pub upstream : Text
upstream = codes "Upstream"

abbrev pub plugin_config : Text
plugin_config = codes "PluginConfig"

abbrev pub state_key_kinds : List Text
state_key_kinds = proxy ∷ consumer ∷ upstream ∷ plugin_config ∷ []

unfoldable pub is_state_key_kind : Text → Bool
is_state_key_kind value = contains state_key_kinds value

-- `str::replace` of a one-character pattern.
unfoldable pub replace : ℕ → Text → Text → Text
replace c by [] = []
replace c by (x ∷ s) = (if eqb x c then by else x ∷ []) ++ replace c by s

unfoldable pub encode_state_key_component : Text → Text
unfolding replace
encode_state_key_component value = replace b':' (codes "%3A") (replace b'%' (codes "%25") value)

-- The two characters behind a `%`, and the rest of the text, decoded.
abbrev decode_escape : ℕ → ℕ → Text → Text
decode_escape a b rest =
    if eqb a b'2' && eqb b b'5'
    then b'%' ∷ rest
    else if eqb a b'3' && (eqb b b'A' || eqb b b'a')
    then b':' ∷ rest
    else b'%' ∷ a ∷ b ∷ rest

unfoldable pub decode_state_key_component : Text → Text
decode_state_key_component [] = []
decode_state_key_component (c ∷ []) = if eqb c b'%' then b'%' ∷ [] else c ∷ []
decode_state_key_component (c ∷ a ∷ []) =
    let plain = c ∷ decode_state_key_component (a ∷ []) in
    if eqb c b'%' then b'%' ∷ a ∷ [] else plain
decode_state_key_component (c ∷ a ∷ b ∷ rest) =
    let plain = c ∷ decode_state_key_component (a ∷ b ∷ rest) in
    let escape = decode_escape a b (decode_state_key_component rest) in
    if eqb c b'%' then escape else plain

unfoldable pub state_key : Text → Text → Text → Text
state_key namespace kind id =
    state_key_prefix
    ++ (b':'
        ∷ (encode_state_key_component namespace
            ++ (b':' ∷ (kind ++ (b':' ∷ encode_state_key_component id)))))

-- The text before the first separator, and the text behind it if there is one.
unfoldable pub split_once : ℕ → Text → Text × Option Text
split_once c [] = ([], none)
split_once c (x ∷ s) =
    let (before, rest) = split_once c s in if eqb x c then ([], some s) else (x ∷ before, rest)

-- `str::splitn`.
unfoldable pub splitn : ℕ → ℕ → Text → List Text
unfolding split_once
splitn zero c s = []
splitn (suc zero) c s = s ∷ []
splitn (suc (suc n)) c s =
    let (before, found) = split_once c s in
    elim found [ none ↦ before ∷ [] | some rest ↦ before ∷ splitn (suc n) c rest ]

parse_parts : List Text → Option (Text × Text × Text)
parse_parts (prefix ∷ namespace ∷ kind ∷ id ∷ _) =
    if not (prefix == state_key_prefix)
    then none
    else if not (is_empty namespace) && not (is_empty id) && is_state_key_kind kind
    then some (namespace, kind, id)
    else none
parse_parts _ = none

unfoldable pub parse_state_key : Text → Option (Text × Text × Text)
unfolding parse_parts splitn is_state_key_kind
parse_state_key key = parse_parts (splitn 4 b':' key)

abbrev decoded_namespace : Option (Text × Text × Text) → Option Text
decoded_namespace none = none
decoded_namespace (some (namespace, _, _)) = some (decode_state_key_component namespace)

unfoldable pub state_key_namespace : Text → Option Text
unfolding parse_state_key
state_key_namespace key = decoded_namespace (parse_state_key key)
