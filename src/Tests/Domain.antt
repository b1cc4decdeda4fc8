-- ===== src/Tests/Domain.antt =====
-- The theorems on internal/domain at one input each.
