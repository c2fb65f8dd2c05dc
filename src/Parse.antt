-- ===== src/Parse.antt =====
-- internal/parse/labels.go: what the worker reads from a container's labels.
pub mod Values
pub mod Middlewares
pub mod Routes
pub mod Backend
pub mod Container
pub mod Tests
