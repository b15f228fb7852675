-- ===== src/Enums.antt =====
-- The enumerations of the C interface and their casts, names and flags.
pub mod Kinds
pub mod Codes
pub mod Casts
pub mod Flags
pub mod Digits
pub mod Names
pub mod Constants
pub mod Assertions
