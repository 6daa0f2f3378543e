-- ===== src/ModelRegistry.antt =====
-- proxy/app/model_evolution/model_registry.py (and its copy under model_evolution_service): the
-- versions of a model and their statuses.
pub mod Versions
pub mod Latest
pub mod Production
pub mod Operations
mod Tests
