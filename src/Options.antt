-- ===== src/Options.antt =====
-- src/cc_option.c and include/cc_option.h: options that are set from text.
pub mod Rpn
pub mod Line
pub mod Store
pub mod Load
pub mod Show
mod Tests
