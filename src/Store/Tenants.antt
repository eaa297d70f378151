-- ===== src/Store/Tenants.antt =====
-- db/sqlite_store.py, the workspaces. A row made by `ensure_tenant` has no slug.
pub mod Fresh
use Prim.Native.String.{◌++◌ as str_append}
use omni_flow.Prelude.{
  ℕ, zero, suc, ◌+◌, String, Bool, false, Option, none, some, List, [], ◌∷◌, ◌++◌, string_eq,
  if◌then◌else◌, ◌==◌, is_some, length,
}
use omni_flow.TextOps.{TextOps}
use omni_flow.Slugs.{slugify}
use omni_flow.Sql.{find, lookup, insert_or_ignore}
use omni_flow.Store.{Tenant, Database}

unfoldable pub get_tenant : String → Database → Option Tenant
get_tenant tenant db = lookup (λ t. t.id) tenant db.tenants

-- `name or tenant_id`, with a missing name as the empty text.
unfoldable pub ensure_tenant : String → String → Database → Option Tenant × Database
unfolding get_tenant
ensure_tenant tenant name db =
    let row : Tenant = record {
      id = tenant;
      name = if name == "" then tenant else name;
      slug = none;
    } in
    let db' = record db { tenants = insert_or_ignore (λ t. t.id) row db.tenants } in
    (get_tenant tenant db', db')

-- `WHERE slug = ?`
abbrev pub has_slug : String → Tenant → Bool
has_slug slug t = elim t.slug [ none ↦ false | some s ↦ s == slug ]

module _ (ops : TextOps) where
  abbrev pub numbered : String → ℕ → String
  numbered base suffix = str_append base (str_append "-" (ops.decimal suffix))

  -- The `while` loop of `create_tenant`, with fuel; `none` means that the fuel ran out.
  unfoldable pub free_slug : ℕ → String → ℕ → String → List Tenant → Option String
  free_slug zero base suffix candidate tenants = none
  free_slug (suc fuel) base suffix candidate tenants =
      let rest = free_slug fuel base (suffix + 1) (numbered base (suffix + 1)) tenants in
      if is_some (find (has_slug candidate) tenants) then rest else some candidate

  abbrev pub tenant_row : String → String → String → Tenant
  tenant_row uid name slug = record {
    id = uid;
    name = if ops.strip name == "" then "Workspace" else ops.strip name;
    slug = some slug;
  }

  -- Called with no slug. `none` for the IntegrityError of an id that is taken; `uid` is `uuid4()`.
  unfoldable pub create_tenant : String → String → Database → Option Tenant × Database
  unfolding get_tenant free_slug
  create_tenant uid name db =
      elim (free_slug (length db.tenants + 2) (slugify ops name) 1 (slugify ops name) db.tenants) [
        | none ↦ (none, db)
        | some slug ↦
            let db' = record db { tenants = db.tenants ++ tenant_row uid name slug ∷ [] } in
            if is_some (lookup (λ (t : Tenant). t.id) uid db.tenants)
            then (none, db)
            else (get_tenant uid db', db')
      ]
