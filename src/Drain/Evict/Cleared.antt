-- ===== src/Drain/Evict/Cleared.antt =====
-- `DeleteOrEvictPods` as a whole: no error means that every pod is cleared.
