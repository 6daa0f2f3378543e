-- ===== src/Variants.antt =====
-- proxy/app/shared/ab_test.py: ABTestRunner, which chooses a variant of a model for a request, with
-- the controller of Canary. Weights are natural, in any unit.
pub mod Runner
pub mod Selection
mod Tests
