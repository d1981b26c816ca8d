-- ===== src/Api.antt =====
-- The resource types: api/v1, with what they take from Kubernetes' own types.
mod MetaTypes
mod PollTypes
mod ResponseTypes
pub use MetaTypes.*
pub use PollTypes.*
pub use ResponseTypes.*
