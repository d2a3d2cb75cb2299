-- ===== src/Examples.antt =====
-- Tests of the models, and the theorems at concrete inputs.
mod Grading
mod Board
mod Firmware
mod Reading
mod Running
mod Stopping
mod Build
mod Package
mod Commands
mod Jobs
mod Starting
