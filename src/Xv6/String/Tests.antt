-- ===== src/Xv6/String/Tests.antt =====
-- A copy onto itself, one byte up.
