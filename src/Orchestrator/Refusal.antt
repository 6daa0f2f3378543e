-- ===== src/Orchestrator/Refusal.antt =====
-- proxy/app/core/orchestrator/graph.py: how the runs of the graph end.
