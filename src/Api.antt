-- ===== src/Api.antt =====
-- internal/api: what the HTTP handlers decide. Requests and responses are values; net/http and
-- encoding/json are the standard library's.
pub mod Subscribe
pub mod Watches
pub mod Sentences
pub mod Shown
