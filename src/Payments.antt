-- ===== src/Payments.antt =====
-- backend/src/payments: the intents, the webhook and the refunds of payments.service.ts and the
-- cron of refund-retry.service.ts. Stripe and a plugin's gateway are not code of the repository:
-- their answers are arguments. The e-mail, the invoice and the published events are left out.
pub mod Currency
pub mod Intents
pub mod Webhook
pub mod Refunds
pub mod Retry
mod Tests
