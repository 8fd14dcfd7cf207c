-- ===== src/Diff/Redact.antt =====
-- diff/resource_diff.rs and secrets/service_discovery.rs: secret leaves are replaced before a
-- changed field is recorded.
pub mod Laws
use mathlib.Core.List.{reverse}
use ferrum_edge_git_forge_op.Base.{
  ℕ, Text, codes, List, [], ◌∷◌, ◌++◌, Bool, true, false, not, ◌&&◌, ◌||◌, Option, none, some, eqb,
  leb, text_eq, ◌==◌, if◌then◌else◌, is_some,
}
use ferrum_edge_git_forge_op.StateKey.{split_once}
use ferrum_edge_git_forge_op.Json.{
  Value, string, object, Members, end, member, value_at, member_of, with_member,
}
use ferrum_edge_git_forge_op.Change.{FieldChange, ResourceDiff}

-- `serde_json::to_string` and `serde_json::from_str`.
pub record Serde : Type 0 where
  pub to_string : Value → Text
  pub from_str : Text → Option Value

abbrev pub redaction : Text
redaction = codes "[REDACTED]"

unfoldable pub drop_while : (ℕ → Bool) → Text → Text
drop_while p [] = []
drop_while p (c ∷ s) = let rest = drop_while p s in if p c then rest else c ∷ s

unfoldable pub trim_matches : (ℕ → Bool) → Text → Text
unfolding drop_while
trim_matches p s = reverse (drop_while p (reverse (drop_while p s)))

unfoldable pub keep_chars : (ℕ → Bool) → Text → Text
keep_chars p [] = []
keep_chars p (c ∷ s) = let rest = keep_chars p s in if p c then c ∷ rest else rest

-- The text before the first character that passes, and the text from there on.
unfoldable pub break_at : (ℕ → Bool) → Text → Text × Text
break_at p [] = ([], [])
break_at p (c ∷ s) =
    let (before, rest) = break_at p s in if p c then ([], c ∷ s) else (c ∷ before, rest)

-- The texts before and behind the last occurrence of a character.
unfoldable pub rsplit_once : ℕ → Text → Option (Text × Text)
rsplit_once c [] = none
rsplit_once c (x ∷ s) = elim (rsplit_once c s) [
  | none ↦ if eqb x c then some ([], s) else none
  | some (before, after) ↦ some (x ∷ before, after)
]

abbrev pub is_alpha : ℕ → Bool
is_alpha c = (leb b'A' c && leb c b'Z') || (leb b'a' c && leb c b'z')

abbrev pub is_alphanumeric : ℕ → Bool
is_alphanumeric c = is_alpha c || (leb b'0' c && leb c b'9')

abbrev pub all_chars : (ℕ → Bool) → Text → Bool
all_chars p [] = true
all_chars p (c ∷ s) = p c && all_chars p s

abbrev pub is_scheme_char : ℕ → Bool
is_scheme_char c = is_alphanumeric c || (eqb c b'+' || (eqb c b'-' || eqb c b'.'))

unfoldable pub is_url_scheme : Text → Bool
is_url_scheme [] = false
is_url_scheme (c ∷ s) = is_alpha c && all_chars is_scheme_char s

abbrev pub is_slash : ℕ → Bool
is_slash c = eqb c b'/' || eqb c 92

abbrev pub ends_authority : ℕ → Bool
ends_authority c = is_slash c || (eqb c b'?' || eqb c b'#')

abbrev pub is_blank : ℕ → Bool
is_blank c = leb c 32

abbrev pub is_line_char : ℕ → Bool
is_line_char c = eqb c 9 || (eqb c 10 || eqb c 13)

pub record UrlUserinfo : Type 0 where
  pub scheme : Option Text
  pub userinfo : Text
  pub after : Text

-- The scheme, if there is one, and the text behind it.
unfoldable pub split_scheme : Text → Option Text × Text
unfolding split_once is_url_scheme
split_scheme cleaned =
    let (before, found) = split_once b':' cleaned in
    elim found [
      | none ↦ (none, cleaned)
      | some rest ↦ if is_url_scheme before then (some before, rest) else (none, cleaned)
    ]

unfoldable pub split_authority : Option Text → Text → Option UrlUserinfo
unfolding drop_while break_at rsplit_once
split_authority scheme rest =
    let (authority, path) = break_at ends_authority (drop_while is_slash rest) in
    elim (rsplit_once b'@' authority) [
      | none ↦ none
      | some (userinfo, host) ↦
          some (record { scheme = scheme; userinfo = userinfo; after = host ++ path })
    ]

unfoldable pub split_url_userinfo : Text → Option UrlUserinfo
unfolding split_scheme split_authority trim_matches keep_chars
split_url_userinfo text =
    let (scheme, rest) =
      split_scheme (keep_chars (λ c. not (is_line_char c)) (trim_matches is_blank text)) in
    split_authority scheme rest

abbrev render_redacted : UrlUserinfo → Text
render_redacted parts = elim parts.scheme [
  | none ↦ redaction ++ (b'@' ∷ parts.after)
  | some scheme ↦ scheme ++ (b':' ∷ b'/' ∷ b'/' ∷ (redaction ++ (b'@' ∷ parts.after)))
]

unfoldable pub redact_url_userinfo : Text → Option Text
unfolding split_url_userinfo
redact_url_userinfo text = elim (split_url_userinfo text) [
  | none ↦ none
  | some parts ↦ some (render_redacted parts)
]

-- `json_leaf_mut`: the value at a path of objects, and the write of another value there.
unfoldable pub json_leaf : Value → List Text → Option Value
unfolding value_at
json_leaf value [] = some value
json_leaf value (part ∷ path) = elim (value_at value part) [
  | none ↦ none
  | some child ↦ json_leaf child path
]

unfoldable pub set_leaf : Value → List Text → Value → Value
unfolding with_member member_of
set_leaf value [] leaf = leaf
set_leaf (object m) (part ∷ path) leaf = elim (member_of m part) [
  | none ↦ object m
  | some child ↦ object (with_member m part (set_leaf child path leaf))
]
set_leaf value (part ∷ path) leaf = value

abbrev pub token_path : List Text
token_path = codes "consul" ∷ codes "token" ∷ []

abbrev pub address_path : List Text
address_path = codes "consul" ∷ codes "address" ∷ []

-- `SD_SECRET_FIELDS`, by its paths.
abbrev pub sd_secret_fields : List (List Text)
sd_secret_fields = token_path ∷ []

abbrev redact_leaf : Option Value → List Text → Value × Bool → Value × Bool
redact_leaf (some (string leaf)) path (value, redacted) =
    (set_leaf value path (string redaction), true)
redact_leaf _ path (value, redacted) = (value, redacted)

unfoldable pub redact_fields : List (List Text) → Value × Bool → Value × Bool
unfolding json_leaf set_leaf
redact_fields [] p = p
redact_fields (path ∷ paths) p = redact_fields paths (redact_leaf (json_leaf p.0 path) path p)

abbrev redact_safe : Option Text → Value × Bool → Value × Bool
redact_safe none p = p
redact_safe (some safe) p = (set_leaf p.0 address_path (string safe), true)

abbrev redact_address : Option Value → Value × Bool → Value × Bool
redact_address (some (string address)) p = redact_safe (redact_url_userinfo address) p
redact_address _ p = p

unfoldable pub redact_document : Value → Value × Bool
unfolding redact_fields redact_url_userinfo json_leaf set_leaf
redact_document value =
    let fields = redact_fields sd_secret_fields (value, false) in
    redact_address (json_leaf fields.0 address_path) fields

module _ (serde : Serde) where
  unfoldable pub redact_service_discovery_json : Text → Option Text
  unfolding redact_document
  redact_service_discovery_json serialized = elim (serde.from_str serialized) [
    | none ↦ none
    | some value ↦
        let (redacted, any_redacted) = redact_document value in
        if any_redacted then some (serde.to_string redacted) else none
  ]

  abbrev redact_side : Text → Text
  redact_side side = elim (redact_service_discovery_json side) [ none ↦ side | some safe ↦ safe ]

  unfoldable pub redact_change : FieldChange → FieldChange
  unfolding redact_service_discovery_json
  redact_change change =
      if change.field == codes "service_discovery"
      then record change {
        old_value = redact_side change.old_value;
        new_value = redact_side change.new_value;
      }
      else change

  unfoldable pub redact_changes : List FieldChange → List FieldChange
  unfolding redact_change
  redact_changes [] = []
  redact_changes (change ∷ changes) = redact_change change ∷ redact_changes changes

  unfoldable pub redact_sensitive_leaves : Text → List FieldChange → List FieldChange
  unfolding redact_changes
  redact_sensitive_leaves kind changes =
      if kind == codes "Upstream" then redact_changes changes else changes
