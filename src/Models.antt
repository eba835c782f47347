-- ===== src/Models.antt =====
-- crates/common/src/models.rs: the enums that the database columns hold, the fields of a build that
-- scheduling reads, and pagination.
pub mod EvaluationStatus
pub mod EvaluationTriggerKind
pub mod JobsetState
pub mod JobsetTriggerMode
pub mod BuildStatus
pub mod UserType
pub mod NotificationTaskStatus
pub mod Pagination
pub mod Spelling
pub mod Rows
