-- ===== src/Validator.antt =====
-- src/enclave/validator/Validator.cpp: `Space` validates the G, `Meaningful` the files.
pub mod Space
pub mod Meaningful
mod Tests
