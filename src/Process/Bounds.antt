-- ===== src/Process/Bounds.antt =====
-- List of internal/service/process/manager.go: the bounds of its slice expression.
