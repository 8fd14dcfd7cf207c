-- ===== src/StateKey/Laws.antt =====
-- State keys name their resource: the escapes round-trip, and the parser finds the namespace.
use ferrum_edge_git_forge_op.Base.{
  ℕ, Text, List, [], ◌∷◌, ◌++◌, ◌≡◌, ◌≢◌, refl, Bool, true, false, ◌&&◌, not, none, some, eqb,
  is_empty, ◌⊎◌, text_eq, if◌then◌else◌, arith, ap, Bool-cases, inl, inr, eqb→eq, eqb_refl, ==_refl,
}
use ferrum_edge_git_forge_op.StateKey.{
  proxy, consumer, upstream, plugin_config, state_key_prefix, encode_state_key_component,
  decode_state_key_component, state_key, split_once, splitn, parse_parts, parse_state_key,
  state_key_namespace, is_state_key_kind,
}

decode-cons :
    (c : ℕ) (s : Text)
    → c ≢ b'%'
    → decode_state_key_component (c ∷ s) ≡ c ∷ decode_state_key_component s
unfolding decode_state_key_component
decode-cons c [] h = ground arith
decode-cons c (a ∷ []) h = ground arith
decode-cons c (a ∷ b ∷ s) h = ground arith

decode-percent :
    (s : Text)
    → decode_state_key_component (b'%' ∷ b'2' ∷ b'5' ∷ s) ≡ b'%' ∷ decode_state_key_component s
unfolding decode_state_key_component
decode-percent s = refl

decode-colon :
    (s : Text)
    → decode_state_key_component (b'%' ∷ b'3' ∷ b'A' ∷ s) ≡ b':' ∷ decode_state_key_component s
unfolding decode_state_key_component
decode-colon s = refl

module _ (c : ℕ) (s : Text) where
  encode-cons_percent :
      eqb c b'%' ≡ true
      → encode_state_key_component (c ∷ s) ≡ b'%' ∷ b'2' ∷ b'5' ∷ encode_state_key_component s
  unfolding encode_state_key_component
  encode-cons_percent percent = rw percent

  encode-cons_colon :
      eqb c b'%' ≡ false
      → eqb c b':' ≡ true
      → encode_state_key_component (c ∷ s) ≡ b'%' ∷ b'3' ∷ b'A' ∷ encode_state_key_component s
  unfolding encode_state_key_component
  encode-cons_colon plain colon = rw (plain, colon)

  encode-cons_plain :
      eqb c b'%' ≡ false
      → eqb c b':' ≡ false
      → encode_state_key_component (c ∷ s) ≡ c ∷ encode_state_key_component s
  unfolding encode_state_key_component
  encode-cons_plain plain other = rw (plain, other)

encode-nil : encode_state_key_component [] ≡ []
unfolding encode_state_key_component
encode-nil = refl

-- Decoding an encoded component gives the component back.
pub decode-encode : (s : Text) → decode_state_key_component (encode_state_key_component s) ≡ s
decode-encode [] = rw encode-nil (unfold decode_state_key_component in refl)
decode-encode (c ∷ s) = elim (Bool-cases (eqb c b'%')) [
  | inl percent ↦
      rw (encode-cons_percent c s percent)
        (cc (decode-percent (encode_state_key_component s), decode-encode s, eqb→eq c b'%' percent))
  | inr plain ↦ elim (Bool-cases (eqb c b':')) [
    | inl colon ↦
        rw (encode-cons_colon c s plain colon)
          (cc (decode-colon (encode_state_key_component s), decode-encode s, eqb→eq c b':' colon))
    | inr other ↦
        rw (encode-cons_plain c s plain other)
          (cc (decode-cons c (encode_state_key_component s) (ground arith), decode-encode s))
  ]
]

-- No character of the text is `c`.
abbrev pub Free : ℕ → Text → Type 0
Free c [] = Unit
Free c (x ∷ s) = (eqb x c ≡ false) × Free c s

encode-Free : (s : Text) → Free b':' (encode_state_key_component s)
encode-Free [] = rw encode-nil tt
encode-Free (c ∷ s) = elim (Bool-cases (eqb c b'%')) [
  | inl percent ↦ rw (encode-cons_percent c s percent) (refl, (refl, (refl, encode-Free s)))
  | inr plain ↦ elim (Bool-cases (eqb c b':')) [
    | inl colon ↦ rw (encode-cons_colon c s plain colon) (refl, (refl, (refl, encode-Free s)))
    | inr other ↦ rw (encode-cons_plain c s plain other) (other, encode-Free s)
  ]
]

encode-is_empty : (s : Text) → is_empty (encode_state_key_component s) ≡ is_empty s
encode-is_empty [] = rw encode-nil
encode-is_empty (c ∷ s) = elim (Bool-cases (eqb c b'%')) [
  | inl percent ↦ rw (encode-cons_percent c s percent)
  | inr plain ↦ elim (Bool-cases (eqb c b':')) [
    | inl colon ↦ rw (encode-cons_colon c s plain colon)
    | inr other ↦ rw (encode-cons_plain c s plain other)
  ]
]

split_once-append : (c : ℕ) (s t : Text) → Free c s → split_once c (s ++ c ∷ t) ≡ (s, some t)
unfolding split_once
split_once-append c [] t h = rw (eqb_refl c)
split_once-append c (x ∷ s) t (differ, h) = rw (split_once-append c s t h, differ)

lacks : ℕ → Text → Bool
lacks c [] = true
lacks c (x ∷ s) = not (eqb x c) && lacks c s

lacks→Free : (c : ℕ) (s : Text) → lacks c s ≡ true → Free c s
unfolding lacks
lacks→Free c [] h = tt
lacks→Free c (x ∷ s) h = (ground arith, lacks→Free c s (ground arith))

pub proxy-Free : Free b':' proxy
unfolding lacks
proxy-Free = lacks→Free b':' proxy refl

pub consumer-Free : Free b':' consumer
unfolding lacks
consumer-Free = lacks→Free b':' consumer refl

pub upstream-Free : Free b':' upstream
unfolding lacks
upstream-Free = lacks→Free b':' upstream refl

pub plugin-Free : Free b':' plugin_config
unfolding lacks
plugin-Free = lacks→Free b':' plugin_config refl

kind_of_known :
    (kind : Text)
    → (kind ≡ proxy) ⊎ (kind ≡ consumer) ⊎ (kind ≡ upstream) ⊎ (kind ≡ plugin_config)
    → Free b':' kind
kind_of_known kind (inl h) = rw h proxy-Free
kind_of_known kind (inr (inl h)) = rw h consumer-Free
kind_of_known kind (inr (inr (inl h))) = rw h upstream-Free
kind_of_known kind (inr (inr (inr h))) = rw h plugin-Free

pub kind-Free : (kind : Text) → is_state_key_kind kind ≡ true → Free b':' kind
unfolding is_state_key_kind
kind-Free kind h = kind_of_known kind (ground arith)

abbrev key_parts : Text → Text → Text → List Text
key_parts namespace kind id =
    state_key_prefix
    ∷ encode_state_key_component namespace
    ∷ kind
    ∷ encode_state_key_component id
    ∷ []

module _ (namespace kind id : Text) (free : Free b':' kind) where
  splitn-state_key : splitn 4 b':' (state_key namespace kind id) ≡ key_parts namespace kind id
  unfolding splitn state_key
  splitn-state_key =
      rw
        (
          split_once-append b':' (encode_state_key_component namespace) _ (encode-Free namespace),
          split_once-append b':' kind _ free,
        )
        (rw (
          split_once-append b':' (encode_state_key_component namespace) _ (encode-Free namespace),
          split_once-append b':' kind _ free,
        ))

  -- For a kind without a colon, the parser finds the namespace of a key exactly if the namespace
  -- and the id are not empty and the kind is known.
  pub state_key_namespace-state_key : state_key_namespace (state_key namespace kind id) ≡ (
      if not (is_empty namespace) && not (is_empty id) && is_state_key_kind kind
      then some namespace
      else none)
  unfolding state_key_namespace parse_parts parse_state_key
  state_key_namespace-state_key = rw splitn-state_key (
      ground (
        arith,
        ==_refl state_key_prefix,
        encode-is_empty namespace,
        encode-is_empty id,
        decode-encode namespace,
      ))

-- Two keys with kinds that have no colon are equal only for the same resource.
pub state_key-injective :
    (namespace kind id namespace' kind' id' : Text)
    → Free b':' kind
    → Free b':' kind'
    → state_key namespace kind id ≡ state_key namespace' kind' id'
    → (namespace ≡ namespace') × (kind ≡ kind') × (id ≡ id')
state_key-injective n k i n' k' i' f f' e =
    let parts : key_parts n k i ≡ key_parts n' k' i' =
      cc (splitn-state_key n k i f, splitn-state_key n' k' i' f', ap (splitn 4 b':') e) in
    (cc (decode-encode n, decode-encode n'), cc, cc (decode-encode i, decode-encode i'))
