-- ===== src/Tests/Rbac.antt =====
-- crm-backend/src/modules/rbac/rbac.service.ts and the roles guard at concrete inputs.
use crm_with_blockchain_rag.Base.{refl, true, ◌≡◌}
use crm_with_blockchain_rag.Rbac.{allows, has_permission}
use crm_with_blockchain_rag.Rbac.Hierarchy.{has_permission-super_admin}

has_permission-super_admin_example : has_permission "SUPER_ADMIN" "tickets" "delete" ≡ true
unfolding has_permission allows
has_permission-super_admin_example =
    has_permission-super_admin "SUPPORT_AGENT" "tickets" "delete" refl
