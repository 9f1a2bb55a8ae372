-- ===== src/Api.antt =====
-- api: the management API.
pub mod Http
pub mod Db
pub mod Lifecycle
pub mod Plans
pub mod Slug
pub mod Projects
pub mod Keys
pub mod Credentials
pub mod Budgets
pub mod Auth
pub mod Usage
pub mod RateLimit
pub mod Server
