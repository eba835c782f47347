-- ===== src/Types.antt =====
-- crates/types/src/lib.rs: the domain enums that every crate shares. Each enum is a module with its
-- spelling (`as_str`, `Display`) and its parser (`FromStr`); `ParseError` stands for the message
-- `invalid {what} '{value}'` that a parser refuses with.
pub mod GlobalRole
pub mod ProjectRole
pub mod AuthKind
pub mod ForgeType
pub mod NotificationType
pub mod InputType
pub mod Spelling
