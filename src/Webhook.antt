-- ===== src/Webhook.antt =====
-- internal/webhook/v1: the admission webhooks for both kinds.
pub mod FieldError
pub mod PollWebhook
pub mod ResponseWebhook
pub mod Agreement
