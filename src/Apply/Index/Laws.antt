-- ===== src/Apply/Index/Laws.antt =====
-- apply/api_target.rs: a row of the index is the one that a linear search finds.
use ferrum_edge_git_forge_op.Base.{
  List, [], ◌∷◌, ◌++◌, ◌≡◌, refl, ◌∙◌, Option, none, some, text_eq, ◌==◌, if◌then◌else◌, is_some,
  arith,
}
use ferrum_edge_git_forge_op.Base.HashMap.{HashMap, lookup}
use ferrum_edge_git_forge_op.Config.{GatewayConfig}
use ferrum_edge_git_forge_op.Diff.{Row, row_eq}
use ferrum_edge_git_forge_op.Apply.Index.{
  proxy_row, consumer_row, upstream_row, plugin_row, index_rows, build,
}

or_else : {A : Type 0} → Option A → Option A → Option A
or_else (some a) b = some a
or_else none b = b

module _ {T : Type 0} (key : T → Row) where
  -- `iter().find` by the key.
  unfoldable pub find : List T → Row → Option T
  find [] row = none
  find (r ∷ rows) row = if key r == row then some r else find rows row

  lookup-append :
      (m : HashMap Row T) (k row : Row) (r : T)
      → lookup (m ++ (k, r) ∷ []) row ≡ or_else (lookup m row) (if k == row then some r else none)
  unfolding lookup or_else
  lookup-append [] k row r = refl
  lookup-append ((j, v) ∷ m) k row r = ground (arith, lookup-append m k row r)

  insert_new :
      (m : HashMap Row T) (r : T) (row : Row) (later : Option T)
      → or_else (lookup (if is_some (lookup m (key r)) then m else m ++ (key r, r) ∷ []) row) later
        ≡ or_else (lookup m row) (if key r == row then some r else later)
  unfolding or_else
  insert_new m r row later = ground (arith, lookup-append m (key r) row r)

  lookup-index_rows :
      (rows : List T) (m : HashMap Row T) (row : Row)
      → lookup (index_rows key m rows) row ≡ or_else (lookup m row) (find rows row)
  unfolding index_rows find
  lookup-index_rows [] m row = unfold or_else in ground arith
  lookup-index_rows (r ∷ rows) m row =
      lookup-index_rows rows _ row ∙ insert_new m r row (find rows row)

  pub lookup-find :
      (rows : List T) (row : Row) → lookup (index_rows key [] rows) row ≡ find rows row
  lookup-find rows row = lookup-index_rows rows [] row ∙ unfold lookup or_else in refl

-- Each row of the index of a document is the first row of the document with that namespace and id,
-- for the four kinds.
pub build-find :
    (config : GatewayConfig) (row : Row)
    → (lookup (build config).proxies row ≡ find proxy_row config.proxies row)
      × (lookup (build config).consumers row ≡ find consumer_row config.consumers row)
      × (lookup (build config).upstreams row ≡ find upstream_row config.upstreams row)
      × (lookup (build config).plugin_configs row ≡ find plugin_row config.plugin_configs row)
unfolding build
build-find config row = (
  lookup-find proxy_row config.proxies row,
  lookup-find consumer_row config.consumers row,
  lookup-find upstream_row config.upstreams row,
  lookup-find plugin_row config.plugin_configs row,
)
