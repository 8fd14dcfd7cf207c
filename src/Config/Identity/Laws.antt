-- ===== src/Config/Identity/Laws.antt =====
-- The duplicate check accepts exactly the documents without a repeated identity, and a document's
-- state keys are those of its identities.
use mathlib.Core.List.{map-append, map-map}
use ferrum_edge_git_forge_op.Base.{
  ◌≢◌, List, [], ◌∷◌, ◌++◌, map, Bool, true, false, ◌≡◌, ◌↔◌, refl, ap, contains, text_eq, text_key,
  ◌==◌, Result, ok, err, ◌>>=◌, arith, Bool-cases, inl, inr, eq→path, ne→eq, path→eq,
}
use ferrum_edge_git_forge_op.StateKey.Laws.{
  Free, state_key-injective, proxy-Free, consumer-Free, upstream-Free, plugin-Free,
}
use ferrum_edge_git_forge_op.Config.{GatewayConfig}
use ferrum_edge_git_forge_op.Config.Identity.{
  ConfigError, Identity, identity_eq, identities, insert_resource_keys,
  validate_unique_resource_keys, from_config, key_of, proxy_identity, consumer_identity,
  upstream_identity, plugin_identity,
}

-- No identity of the list is in `seen`, and none comes twice.
abbrev pub Fresh : List Identity → List Identity → Type 0
Fresh seen [] = Unit
Fresh seen (key ∷ keys) = (contains seen key ≡ false) × Fresh (key ∷ seen) keys

abbrev accepted {ℓ} : {A : Type ℓ} → Result ConfigError A → Bool
accepted (ok a) = true
accepted (err e) = false

insert_resource_keys-append :
    (seen xs ys : List Identity)
    → insert_resource_keys seen (xs ++ ys)
      ≡ (insert_resource_keys seen xs >>= λ seen'. insert_resource_keys seen' ys)
unfolding insert_resource_keys
insert_resource_keys-append seen [] ys = refl
insert_resource_keys-append seen (x ∷ xs) ys = elim (Bool-cases (contains seen x)) [
  | inl old ↦ rw old
  | inr new ↦ rw new (insert_resource_keys-append (x ∷ seen) xs ys)
]

abbrev forget {ℓ} : {A : Type ℓ} → Result ConfigError A → Result ConfigError (Unit {0})
forget (ok a) = ok tt
forget (err e) = err e

then_plugins :
    (r : Result ConfigError (List Identity)) (qs : List Identity)
    → (do upstreams ← r; plugins ← insert_resource_keys upstreams qs; ok tt)
      ≡ forget (r >>= λ seen. insert_resource_keys seen qs)
then_plugins (err e) qs = refl
then_plugins (ok seen) qs =
    elim (insert_resource_keys seen qs) as (λ r. (r >>= λ _. ok tt) ≡ forget r) [
      | ok a ↦ refl
      | err e ↦ refl
    ]

then_upstreams :
    (r : Result ConfigError (List Identity)) (us qs : List Identity)
    → (do
      consumers ← r
      upstreams ← insert_resource_keys consumers us
      plugins ← insert_resource_keys upstreams qs
      ok tt)
      ≡ forget (r >>= λ seen. insert_resource_keys seen (us ++ qs))
then_upstreams (err e) us qs = refl
then_upstreams (ok seen) us qs =
    rw (insert_resource_keys-append seen us qs) (then_plugins (insert_resource_keys seen us) qs)

then_consumers :
    (r : Result ConfigError (List Identity)) (cs us qs : List Identity)
    → (do
      proxies ← r
      consumers ← insert_resource_keys proxies cs
      upstreams ← insert_resource_keys consumers us
      plugins ← insert_resource_keys upstreams qs
      ok tt)
      ≡ forget (r >>= λ seen. insert_resource_keys seen (cs ++ (us ++ qs)))
then_consumers (err e) cs us qs = refl
then_consumers (ok seen) cs us qs =
    rw (insert_resource_keys-append seen cs (us ++ qs))
      (then_upstreams (insert_resource_keys seen cs) us qs)

validate_lem :
    (config : GatewayConfig)
    → validate_unique_resource_keys config ≡ forget (insert_resource_keys [] (identities config))
unfolding validate_unique_resource_keys
validate_lem config =
    let ps = map proxy_identity config.proxies in
    let cs = map consumer_identity config.consumers in
    let us = map upstream_identity config.upstreams in
    let qs = map plugin_identity config.plugin_configs in
    rw (insert_resource_keys-append [] ps (cs ++ (us ++ qs)))
      (then_consumers (insert_resource_keys [] ps) cs us qs)

accepted-Fresh :
    (seen keys : List Identity)
    → (accepted (insert_resource_keys seen keys) ≡ true) ↔ Fresh seen keys
unfolding insert_resource_keys
accepted-Fresh seen [] = (λ h. tt, λ h. refl)
accepted-Fresh seen (key ∷ keys) = ground (arith, accepted-Fresh (key ∷ seen) keys)

-- The check accepts a document exactly if no identity is declared twice.
pub validate_unique-Fresh :
    (config : GatewayConfig)
    → (validate_unique_resource_keys config ≡ ok tt) ↔ Fresh [] (identities config)
validate_unique-Fresh config =
    ground (arith, validate_lem config, accepted-Fresh [] (identities config))

abbrev pub KindsFree : List Identity → Type 0
KindsFree [] = Unit
KindsFree (a ∷ l) = Free b':' a.kind × KindsFree l

keys_differ :
    (a b : Identity) → Free b':' a.kind → Free b':' b.kind → (a == b) ≡ false → key_of a ≢ key_of b
keys_differ a b fa fb differ same =
    let (n, k, i) =
      state_key-injective a.namespace a.kind a.id b.namespace b.kind b.id fa fb same in
    ground (arith, path→eq a b (λ j. record { namespace = n j; kind = k j; id = i j }))

pub key_of-== :
    (a b : Identity) → Free b':' a.kind → Free b':' b.kind → (key_of a == key_of b) ≡ (a == b)
key_of-== a b fa fb = elim (Bool-cases (a == b)) [
  | inl same ↦ rw same (path→eq _ _ (ap key_of (eq→path a b same)))
  | inr differ ↦ rw differ (ne→eq _ _ (keys_differ a b fa fb differ))
]

contains-key_of :
    (l : List Identity) (b : Identity)
    → KindsFree l
    → Free b':' b.kind
    → contains (map key_of l) (key_of b) ≡ contains l b
contains-key_of [] b fs f = refl
contains-key_of (a ∷ l) b (fa, fs) f = rw (key_of-== a b fa f, contains-key_of l b fs f)

pub KindsFree-map :
    {A : Type 0} (f : A → Identity) (rs : List A)
    → ((r : A) → Free b':' (f r).kind)
    → KindsFree (map f rs)
KindsFree-map f [] h = tt
KindsFree-map f (r ∷ rs) h = (h r, KindsFree-map f rs h)

KindsFree-append : (l m : List Identity) → KindsFree l → KindsFree m → KindsFree (l ++ m)
KindsFree-append [] m ha hb = hb
KindsFree-append (a ∷ l) m (fa, ha) hb = (fa, KindsFree-append l m ha hb)

pub identities-KindsFree : (config : GatewayConfig) → KindsFree (identities config)
identities-KindsFree config =
    KindsFree-append _ _ (KindsFree-map proxy_identity config.proxies (λ r. proxy-Free)) (
      KindsFree-append _ _ (KindsFree-map consumer_identity config.consumers (λ r. consumer-Free)) (
        KindsFree-append _ _ (KindsFree-map upstream_identity config.upstreams (λ r. upstream-Free))
          (KindsFree-map plugin_identity config.plugin_configs (λ r. plugin-Free))))

from_config-identities :
    (config : GatewayConfig) → from_config config ≡ map key_of (identities config)
unfolding from_config
from_config-identities config = simp (map-append, map-map)

-- The state key of an identity is in a document's set exactly if the document declares it.
pub contains-from_config :
    (config : GatewayConfig) (a : Identity)
    → Free b':' a.kind
    → contains (from_config config) (key_of a) ≡ contains (identities config) a
contains-from_config config a f =
    rw (from_config-identities config)
      (contains-key_of (identities config) a (identities-KindsFree config) f)
