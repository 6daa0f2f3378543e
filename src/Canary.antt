-- ===== src/Canary.antt =====
-- proxy/app/model_evolution/canary_controller.py (and its copy under model_evolution_service): the
-- class `CanaryController`. Fractions are numbers of ten-thousandths, so that 1.0 is 10000, times
-- are numbers of seconds, and the Prometheus series are left out. The lock makes each method atomic.
pub mod Controller
pub mod Routing
pub mod Rollback
mod Tests
