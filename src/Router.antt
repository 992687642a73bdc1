-- ===== src/Router.antt =====
-- Handlers of internal/router: which file a request reads or removes, which article or page it
-- shows, what a webhook syncs, and how an import is named.
pub mod Files
pub mod Pages
pub mod Content
pub mod Webhook
pub mod Import
pub mod Navigation
pub mod Peers
pub mod Nodes
pub mod Recent
pub mod Admin
pub mod Remote
mod Tests
