-- ===== src/ModelContext.antt =====
-- `model_context_impl` (src/libixion/model_context_impl.cpp), as far as it keeps sheets and named
-- expressions: its operations in Defs, the names of its sheets in Sheets, its named expressions in Names.
pub mod Defs
pub mod Sheets
pub mod Names
