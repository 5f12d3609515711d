-- ===== src/Model/Tenancy.antt =====
-- Tenants and users: models/tenant.py, models/user.py. Columns that no service reads are left out.
use m8flow_bpmn_core.Base.{ℕ, String, Option}

pub record Tenant : Type 0 where
  pub id : String
  pub slug : String

pub record User : Type 0 where
  pub id : ℕ
  pub username : String
  pub email : Option String
  pub service : String
  pub service_id : String
  pub realm_identifier : Option String
  pub external_org_id : Option String
  pub external_user_id : Option String
