-- ===== src/Diff/Redact/Laws.antt =====
-- Redaction hides the discovery token whatever it is.
use mathlib.Core.Option.{none-ne-some}
use ferrum_edge_git_forge_op.Base.{
  Text, List, [], ◌∷◌, ◌≡◌, refl, sym, ◌∙◌, ap, Bool, true, false, Option, none, some, is_some,
  Option-cases, inl, inr, text_eq, ==_refl, if◌then◌else◌,
}
use ferrum_edge_git_forge_op.Json.{Value, null, bool, number, string, array, object, member_of}
use ferrum_edge_git_forge_op.Json.Laws.{member_of-with_member, with_member-with_member}
use ferrum_edge_git_forge_op.Diff.Redact.{
  Serde, json_leaf, set_leaf, token_path, address_path, redaction, redact_fields, redact_document,
  redact_service_discovery_json, redact_address, redact_safe, redact_url_userinfo,
}

-- The document holds some value at a path of objects.
abbrev pub Holds : Value → List Text → Type 0
Holds value path = (old : Value) × (json_leaf value path ≡ some old)

json_leaf-set_leaf :
    (value : Value) (path : List Text) (leaf old : Value)
    → json_leaf value path ≡ some old
    → json_leaf (set_leaf value path leaf) path ≡ some leaf
unfolding json_leaf set_leaf
json_leaf-set_leaf value [] leaf old h = refl
json_leaf-set_leaf (object m) (part ∷ path) leaf old h = elim (Option-cases (member_of m part)) [
  | inl absent ↦ absurd (none-ne-some old (rw (absent, json_leaf) at h))
  | inr (child, found) ↦
      rw
        (
          found,
          set_leaf,
          json_leaf,
          member_of-with_member m part part (set_leaf child path leaf),
          ==_refl part,
        )
        (json_leaf-set_leaf child path leaf old (rw (found, json_leaf) at h))
]
json_leaf-set_leaf null (part ∷ path) leaf old h = cc
json_leaf-set_leaf (bool b) (part ∷ path) leaf old h = cc
json_leaf-set_leaf (number b) (part ∷ path) leaf old h = cc
json_leaf-set_leaf (string b) (part ∷ path) leaf old h = cc
json_leaf-set_leaf (array b) (part ∷ path) leaf old h = cc

set_leaf-set_leaf :
    (value : Value) (path : List Text) (first second : Value)
    → set_leaf (set_leaf value path first) path second ≡ set_leaf value path second
unfolding set_leaf
set_leaf-set_leaf value [] first second = refl
set_leaf-set_leaf (object m) (part ∷ path) first second = elim (Option-cases (member_of m part)) [
  | inl absent ↦ rw (absent, set_leaf, absent, set_leaf)
  | inr (child, found) ↦ rw (
    found,
    set_leaf,
    member_of-with_member m part part (set_leaf child path first),
    ==_refl part,
    set_leaf,
    with_member-with_member m part (set_leaf child path first),
    set_leaf-set_leaf child path first second,
  )
]
set_leaf-set_leaf null (part ∷ path) first second = refl
set_leaf-set_leaf (bool b) (part ∷ path) first second = refl
set_leaf-set_leaf (number b) (part ∷ path) first second = refl
set_leaf-set_leaf (string b) (part ∷ path) first second = refl
set_leaf-set_leaf (array b) (part ∷ path) first second = refl

redact_token :
    (value : Value) (token : Text) (old : Value)
    → json_leaf value token_path ≡ some old
    → redact_fields (token_path ∷ []) (set_leaf value token_path (string token), false)
      ≡ (set_leaf value token_path (string redaction), true)
unfolding redact_fields
redact_token value token old h = rw (json_leaf-set_leaf value token_path (string token) old h) (
    ap (λ (v : Value). (v, true))
      (set_leaf-set_leaf value token_path (string token) (string redaction)))

redact_document_token :
    (value : Value) (token : Text) (old : Value)
    → json_leaf value token_path ≡ some old
    → redact_document (set_leaf value token_path (string token))
      ≡ redact_document (set_leaf value token_path (string redaction))
unfolding redact_document
redact_document_token value token old h =
    rw (redact_token value token old h, redact_token value redaction old h)

redact_address-flag :
    (address : Option Value) (value : Value) → (redact_address address (value, true)).1 ≡ true
redact_address-flag none value = refl
redact_address-flag (some (string address)) value =
    elim (redact_url_userinfo address) as (λ safe. (redact_safe safe (value, true)).1 ≡ true) [
      | none ↦ refl
      | some safe ↦ refl
    ]
redact_address-flag (some _) value = refl

redact_document_flag :
    (value : Value) (token : Text) (old : Value)
    → json_leaf value token_path ≡ some old
    → (redact_document (set_leaf value token_path (string token))).1 ≡ true
unfolding redact_document
redact_document_flag value token old h = rw (redact_token value token old h) (
    let redacted = set_leaf value token_path (string redaction) in
    redact_address-flag (json_leaf redacted address_path) redacted)

abbrev printed : Serde → Value × Bool → Option Text
printed serde (redacted, any_redacted) =
    if any_redacted then some (serde.to_string redacted) else none

module _ (serde : Serde) where
  abbrev pub ReadsBack : Value → Type 0
  ReadsBack value = serde.from_str (serde.to_string value) ≡ some value

  redact-to_string :
      (value : Value)
      → ReadsBack value
      → redact_service_discovery_json serde (serde.to_string value)
        ≡ printed serde (redact_document value)
  unfolding redact_service_discovery_json
  redact-to_string value reads = rw (reads, redact_service_discovery_json)

  -- If serde reads back a discovery block that it wrote with two tokens, the redacted text of the
  -- block is the same with both tokens, and there is one.
  pub redact-token_hidden :
      (value old : Value) (s t : Text)
      → json_leaf value token_path ≡ some old
      → ReadsBack (set_leaf value token_path (string s))
      → ReadsBack (set_leaf value token_path (string t))
      → let redacted = λ (token : Text).
        redact_service_discovery_json serde
          (serde.to_string (set_leaf value token_path (string token))) in
        (redacted s ≡ redacted t) × (is_some (redacted s) ≡ true)
  redact-token_hidden value old s t h reads reads' =
      let document = λ (token : Text). set_leaf value token_path (string token) in
      (
        redact-to_string (document s) reads
            ∙ ap (printed serde)
                (redact_document_token value s old h ∙ sym (redact_document_token value t old h))
            ∙ sym (redact-to_string (document t) reads'),
        rw (redact-to_string (document s) reads, redact_document_flag value s old h),
      )
