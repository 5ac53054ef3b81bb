-- ===== src/Examples.antt =====
-- Runs of the model at concrete inputs, and each result at an input that meets its hypotheses.
pub mod Submission
pub mod Crises
pub mod Export
pub mod Downloads
pub mod Overview
pub mod Photos
pub mod Requests
pub mod Listing
pub mod Texts
pub mod SignIn
pub mod Configuration
