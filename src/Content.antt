-- ===== src/Content.antt =====
-- internal/content: labs, their parameters and templates.
pub mod Lab
pub mod Render
pub mod Cases
pub mod Library
pub mod Params
pub mod Blocks
pub mod Addresses
pub mod Subnets
pub mod Requires
pub mod Acyclic
pub mod Answers
pub mod Cycles
pub mod Declared
pub mod Rules
pub mod Fields
pub mod Topology
pub mod Links
pub mod Names
pub mod Checked
pub mod Resolves
pub mod Seeds
pub mod Started
pub mod Tutorial
pub mod Lessons
pub mod Tests
pub mod LoadTests
