-- ===== src/Store/Agency.antt =====
-- db/sqlite_store.py, the applications of agencies. `now` is the call's `utcnow()` and `uid` its
-- `uuid4()`.
use omni_flow.Prelude.{String, Option, List, [], ◌∷◌, ◌++◌, ◌==◌, string_eq, if◌then◌else◌, leb}
use omni_flow.Sql.{select, order_by}
use omni_flow.Store.{Moment, AgencyApplication, Database}

-- The argument `application`, with a missing status as the empty text.
pub record ApplicationInput : Type 0 where
  pub user_id : Option String
  pub company_name : String
  pub credit_code : String
  pub store_url : String
  pub contact : String
  pub remarks : Option String
  pub business_license_path : Option String
  pub status : String

unfoldable pub save_agency_application :
    String → Moment → String → ApplicationInput → Database → AgencyApplication × Database
save_agency_application uid now tenant a db =
    let row : AgencyApplication = record {
      id = uid;
      tenant_id = tenant;
      user_id = a.user_id;
      company_name = a.company_name;
      credit_code = a.credit_code;
      store_url = a.store_url;
      contact = a.contact;
      remarks = a.remarks;
      business_license_path = a.business_license_path;
      status = if a.status == "" then "received" else a.status;
      created_at = now;
      updated_at = now;
    } in
    (row, record db { agency_applications = db.agency_applications ++ row ∷ [] })

unfoldable pub list_agency_applications : String → Database → List AgencyApplication
unfolding order_by
list_agency_applications tenant db =
    order_by (λ a b. leb b.created_at a.created_at)
      (select (λ a. a.tenant_id == tenant) db.agency_applications)
