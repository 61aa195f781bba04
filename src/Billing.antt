-- ===== src/Billing.antt =====
-- Money and plans: backend/app/billing.py, backend/app/billing_lifecycle.py and
-- backend/app/auth/entitlements.py.
pub mod Fee
pub mod Invoice
pub mod Lifecycle
pub mod Entitlement
pub mod Pricing
