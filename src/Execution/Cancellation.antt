-- ===== src/Execution/Cancellation.antt =====
-- run_execution.py: a run that is marked CANCELLING while its classification template runs, and a
-- slow run that is cancelled at a checkpoint.
