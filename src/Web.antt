-- ===== src/Web.antt =====
-- Package web (internal/web): the handlers of server.go and the functions of the templates.
pub mod Request
pub mod Login
pub mod Operation
pub mod Crumbs
pub mod Pages
pub mod Site
pub mod Funcs
pub mod Samples
mod Tests
