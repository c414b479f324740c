-- ===== src/Identity/Permissions/Codes.antt =====
-- The members of `PermissionCode` of services/identity-service/app/core/permission_codes.py.
use foodo.Prelude.{String, List, [], ◌∷◌}

unfoldable pub permission_codes : List String
permission_codes =
    "pos.write" ∷ "pos.view" ∷ "pos.refund" ∷ "pos.discount" ∷ "inventory.view" ∷ "inventory.adjust"
    ∷ "inventory.items.create" ∷ "inventory.items.update" ∷ "inventory.items.deactivate"
    ∷ "inventory.waste.record" ∷ "inventory.transfer" ∷ "sales.view" ∷ "sales.export"
    ∷ "reports.view" ∷ "reports.export" ∷ "settings.store" ∷ "settings.tax" ∷ "settings.devices"
    ∷ "settings.billing" ∷ "couriers.view" ∷ "couriers.create" ∷ "couriers.update"
    ∷ "couriers.delete" ∷ "insights.view" ∷ "finance.view" ∷ "finance.expenses.create"
    ∷ "finance.expenses.update" ∷ "finance.expenses.delete" ∷ "finance.incomes.create"
    ∷ "finance.incomes.update" ∷ "finance.incomes.delete" ∷ "finance.attachments.upload"
    ∷ "customers.view" ∷ "customers.create" ∷ "customers.update" ∷ "customers.delete"
    ∷ "reorders.view" ∷ "reorders.create" ∷ "reorders.receive" ∷ "reorders.cancel"
    ∷ "suppliers.view" ∷ "suppliers.create" ∷ "suppliers.update" ∷ "suppliers.delete"
    ∷ "recipes.view" ∷ "recipes.create" ∷ "recipes.update" ∷ "recipes.delete" ∷ "production.create"
    ∷ "production.view" ∷ "procurement.create" ∷ "procurement.approve" ∷ "procurement.view"
    ∷ "procurement.receive" ∷ "procurement.auto_order.enable" ∷ "ai.forecast.view"
    ∷ "ai.recommendation.approve" ∷ "supplier.price.manage" ∷ "farmer.supply_commitment.manage"
    ∷ "users.view" ∷ "users.update" ∷ "users.deactivate" ∷ "users.reactivate" ∷ "users.manage"
    ∷ "groups.view" ∷ "groups.create" ∷ "groups.update" ∷ "groups.delete" ∷ "groups.assign_user"
    ∷ "roles.view" ∷ "roles.create" ∷ "roles.update" ∷ "roles.delete" ∷ "roles.assign_to_user"
    ∷ "roles.manage_permissions" ∷ "roles.assign" ∷ "platform_roles.view" ∷ "platform_roles.create"
    ∷ "platform_roles.update" ∷ "platform_roles.delete" ∷ "platform_roles.assign_to_user"
    ∷ "platform_roles.manage_permissions" ∷ "organizations.view" ∷ "organizations.create"
    ∷ "organizations.update" ∷ "organizations.delete" ∷ "businesses.view" ∷ "businesses.create"
    ∷ "businesses.update" ∷ "businesses.delete" ∷ "businesses.assign_to_organization"
    ∷ "stores.view" ∷ "stores.create" ∷ "stores.update" ∷ "stores.delete" ∷ "stores.switch"
    ∷ "business_roles.view" ∷ "business_roles.create" ∷ "business_roles.update"
    ∷ "business_roles.delete" ∷ "business_roles.manage_permissions" ∷ "business.manage_roles"
    ∷ "user_business_roles.view" ∷ "user_business_roles.assign" ∷ "user_business_roles.revoke"
    ∷ "user_store_roles.view" ∷ "user_store_roles.assign" ∷ "user_store_roles.revoke"
    ∷ "user_business_permissions.view" ∷ "user_business_permissions.grant"
    ∷ "user_business_permissions.deny" ∷ "user_business_permissions.revoke" ∷ "role_templates.view"
    ∷ "role_templates.create" ∷ "role_templates.update" ∷ "role_templates.delete"
    ∷ "role_templates.manage_permissions" ∷ "verification_codes.view" ∷ "refresh_tokens.view"
    ∷ "user_sessions.view" ∷ "user_sessions.revoke" ∷ "trusted_devices.view"
    ∷ "trusted_devices.revoke" ∷ "login_attempts.view" ∷ "auth_risk_events.view"
    ∷ "delivery.view_assigned" ∷ "delivery.update_status" ∷ "delivery.confirm_dropoff"
    ∷ "order.create" ∷ "order.view_own" ∷ "order.rate" ∷ []
