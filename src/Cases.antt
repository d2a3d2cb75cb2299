-- ===== src/Cases.antt =====
-- The test classes of user/src/oscomp/*_test.py.
pub mod Prelude
pub mod Process
pub mod Files
pub mod Tree
pub mod System
pub mod Registry
pub mod Bounds
pub mod Expects
pub mod Single
pub mod Several
pub mod Exact
pub mod Yield
