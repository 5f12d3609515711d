-- ===== src/Model/Permission.antt =====
-- The rows of the permission tables: models/permission_assignment.py, permission_target.py,
-- principal.py, group.py, user_group_assignment.py.
use m8flow_bpmn_core.Base.{ℕ, String, Option}

pub data PermitDeny : Type 0 where
  permit deny : PermitDeny

pub data PermissionAction : Type 0 where
  all create delete execute read start update : PermissionAction

pub data PermissionResourceType : Type 0 where
  process_definition process_instance process_model task tenant : PermissionResourceType

pub record PermissionAssignment : Type 0 where
  pub id : ℕ
  pub principal_id : ℕ
  pub permission_target_id : ℕ
  pub grant_type : PermitDeny
  pub permission : PermissionAction

-- `command` is not nullable in the schema, but the ORM passes `None` through.
pub record PermissionTarget : Type 0 where
  pub id : ℕ
  pub command : Option String
  pub resource_type : PermissionResourceType
  pub resource_id : Option String

pub record Principal : Type 0 where
  pub id : ℕ
  pub user_id : Option ℕ
  pub group_id : Option ℕ

pub record Group : Type 0 where
  pub id : ℕ
  pub name : Option String
  pub identifier : Option String
  pub authorization_key : Option String

pub record UserGroupAssignment : Type 0 where
  pub id : ℕ
  pub user_id : ℕ
  pub group_id : ℕ

unfoldable pub Action-discrete : Discrete PermissionAction
Action-discrete = hlevel

unfoldable pub ResourceType-discrete : Discrete PermissionResourceType
ResourceType-discrete = hlevel

unfoldable pub PermitDeny-discrete : Discrete PermitDeny
PermitDeny-discrete = hlevel
