-- ===== src/Ingestion/Execute/Calls/Kept.antt =====
-- ExecuteTask keeps what its calls keep.
