-- ===== src/Proxy.antt =====
-- proxy/: the service that forwards the requests.
pub mod Event
pub mod Dlq
pub mod Serve
pub mod Handler
pub mod Logger
pub mod Forward
pub mod Stream
pub mod Auth
pub mod Backend
pub mod Budgets
pub mod Server
