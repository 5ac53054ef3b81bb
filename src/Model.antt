-- ===== src/Model.antt =====
-- internal/model: the vocabularies, the report document, users, crises and forms.
pub mod Vocabulary
pub mod Report
pub mod User
pub mod Crisis
pub mod Form
