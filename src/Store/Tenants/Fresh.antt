-- ===== src/Store/Tenants/Fresh.antt =====
-- The search for a free slug ends, and what a new workspace is.
use Prim.Native.String.{◌++◌ as str_append}
use text.Mathlib.TextLemmas.{append_cancel_left}
use omni_flow.Prelude.{
  ℕ, zero, suc, ◌+◌, ◌<◌, ◌≡◌, refl, ◌≢◌, inl, inr, arith, String, false, none, some, List, [], ◌∷◌,
  ◌++◌, ==_iff, ==_refl, string_eq, Bool-cases, Option-cases, is_some, length,
}
use omni_flow.TextOps.{TextOps}
use omni_flow.Slugs.{slugify}
use omni_flow.Sql.{find, lookup, delete}
use omni_flow.Sql.Rows.{length-delete, rowcount-pos}
use omni_flow.Sql.Keys.{lookup-append}
use omni_flow.Store.{Tenant, Database}
use omni_flow.Store.Tenants.{get_tenant, has_slug, numbered, free_slug, tenant_row, create_tenant}

-- Workspaces of another slug do not matter to whether a slug is free.
find-delete_other :
    (slug gone : String) (tenants : List Tenant)
    → slug ≢ gone
    → is_some (find (has_slug slug) (delete (has_slug gone) tenants))
      ≡ is_some (find (has_slug slug) tenants)
unfolding find delete
find-delete_other slug gone [] ne = refl
find-delete_other slug gone (t ∷ tenants) ne = elim (Option-cases t.slug) [
  | inl missing ↦ ground (arith, missing, find-delete_other slug gone tenants ne)
  | inr (s, there) ↦
      ground (arith, there, ==_iff s slug, ==_iff s gone, find-delete_other slug gone tenants ne)
]

module _ (ops : TextOps) where
  numbered_inj : (base : String) (m n : ℕ) → numbered ops base m ≡ numbered ops base n → m ≡ n
  numbered_inj base m n e = ops.decimal_inj m n (
      append_cancel_left "-" (ops.decimal m) (ops.decimal n) (
        append_cancel_left base (str_append "-" (ops.decimal m)) (str_append "-" (ops.decimal n))
          e))

  -- From the second candidate on: the rows of a number that is passed can be left out.
  free_slug-delete :
      (fuel : ℕ) (base : String) (suffix passed : ℕ) (tenants : List Tenant)
      → passed < suffix
      → free_slug ops fuel base suffix
          (numbered ops base suffix)
          (delete (has_slug (numbered ops base passed)) tenants)
        ≡ free_slug ops fuel base suffix (numbered ops base suffix) tenants
  unfolding free_slug
  free_slug-delete zero base suffix passed tenants lt = refl
  free_slug-delete (suc fuel) base suffix passed tenants lt =
      rw
        (find-delete_other (numbered ops base suffix) (numbered ops base passed) tenants
          (λ e. absurd (omega (arith, numbered_inj base suffix passed e))))
        (rw (free_slug-delete fuel base (suffix + 1) passed tenants (omega arith)) refl)

  -- Each candidate that is taken leaves one row less to take the later ones.
  free_slug-numbered :
      (fuel : ℕ) (base : String) (suffix : ℕ) (tenants : List Tenant)
      → length tenants < fuel
      → (slug : String) × (free_slug ops fuel base suffix (numbered ops base suffix) tenants
          ≡ some slug)
  unfolding free_slug
  free_slug-numbered zero base suffix tenants lt = absurd (omega arith)
  free_slug-numbered (suc fuel) base suffix tenants lt =
      let here = numbered ops base suffix in
      elim (Option-cases (find (has_slug here) tenants)) [
        | inl free ↦ (here, rw free refl)
        | inr (t, taken) ↦
            let (slug, found) =
              free_slug-numbered fuel base (suffix + 1) (delete (has_slug here) tenants) (
                omega (
                  arith,
                  length-delete (has_slug here) tenants,
                  rowcount-pos (has_slug here) tenants t taken,
                )) in
            (
              slug,
              rw taken (
                  rw (← free_slug-delete fuel base (suffix + 1) suffix tenants (omega arith))
                    found),
            )
      ]

  -- The fuel of `create_tenant` is enough.
  free_slug_found :
      (base : String) (tenants : List Tenant)
      → (slug : String) × (free_slug ops (length tenants + 2) base 1 base tenants ≡ some slug)
  unfolding free_slug
  free_slug_found base tenants =
      let fuel : length tenants + 2 ≡ suc (length tenants + 1) = omega arith in
      rw fuel (elim (Bool-cases (is_some (find (has_slug base) tenants))) [
        | inl taken ↦
            let (slug, found) =
              free_slug-numbered (length tenants + 1) base 2 tenants (omega arith) in
            (slug, rw taken found)
        | inr free ↦ (base, rw free refl)
      ])

  free_slug-free :
      (fuel : ℕ) (base : String) (suffix : ℕ) (candidate : String) (tenants : List Tenant)
      (slug : String)
      → free_slug ops fuel base suffix candidate tenants ≡ some slug
      → is_some (find (has_slug slug) tenants) ≡ false
  unfolding free_slug
  free_slug-free zero base suffix candidate tenants slug h = cc
  free_slug-free (suc fuel) base suffix candidate tenants slug h =
      elim (Bool-cases (is_some (find (has_slug candidate) tenants))) [
        | inl taken ↦
            free_slug-free fuel base (suffix + 1) (numbered ops base (suffix + 1)) tenants slug
              (rw taken at h)
        | inr free ↦
            let e : some candidate ≡ some slug = rw free at h in
            let same : candidate ≡ slug = cc e in rw same at free
      ]

  -- The loop that looks for a slug ends, whatever slugs are taken: a workspace with a new id is made,
  -- with a slug that no workspace had, and is what is returned; the others stay.
  pub create_tenant_lem :
      (uid name : String) (db : Database)
      → lookup (λ (t : Tenant). t.id) uid db.tenants ≡ none
      → (slug : String) × (create_tenant ops uid name db ≡ (
        some (tenant_row ops uid name slug),
        record db { tenants = db.tenants ++ tenant_row ops uid name slug ∷ [] },
      ))
        × (is_some (find (has_slug slug) db.tenants) ≡ false)
  unfolding create_tenant get_tenant
  create_tenant_lem uid name db fresh =
      let base = slugify ops name in
      let (slug, found) = free_slug_found base db.tenants in
      (
        slug,
        rw (found, create_tenant)
            (rw fresh (
              rw
                (lookup-append (λ (t : Tenant). t.id) uid db.tenants (tenant_row ops uid name slug))
                (rw fresh (rw (==_refl uid) refl)))),
        free_slug-free (length db.tenants + 2) base 1 base db.tenants slug found,
      )
