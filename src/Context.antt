-- ===== src/Context.antt =====
-- proxy/app/core/reorder.py, and the budgets of proxy/app/core/token_optimizer.py and
-- proxy/app/domain/value_objects.py: the order of the chunks in a context, and how many of them fit.
pub mod Reorder
pub mod Order
pub mod Budget
pub mod Fitting
pub mod Compression
mod Tests
