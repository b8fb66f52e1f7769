-- ===== src/StringPool.antt =====
-- `safe_string_pool` (src/libixion/model_context_impl.cpp): its operations in Defs, and what they keep in Keeps.
pub mod Defs
pub mod Keeps
