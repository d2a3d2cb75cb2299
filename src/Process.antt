-- ===== src/Process.antt =====
-- user/src/oscomp/ktool.py: the run of `KTool.process`, and `main`.
pub mod Args
pub mod Command
pub mod FlashList
pub mod World
pub mod Detect
pub mod Flow
pub mod Keeps
pub mod Once
pub mod Ends
pub mod Normal
pub mod Refused
pub mod Stages
pub mod Package
pub mod Stall
pub mod Progress
pub mod Front
pub mod Unpack
pub mod Jobs
pub mod Sram
pub mod Whole
