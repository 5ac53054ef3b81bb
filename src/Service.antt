-- ===== src/Service.antt =====
-- internal/service: the submit path and the capture form.
pub mod Errors
pub mod Normalize
pub mod Validate
pub mod Geography
pub mod Submit
pub mod Submission
pub mod FormSchema
