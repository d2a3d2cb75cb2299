-- ===== src/Ktool.antt =====
-- user/src/oscomp/ktool.py: the loader for K210 boards.
pub mod Slip
pub mod Packet
pub mod Response
pub mod Port
pub mod Greeting
pub mod Transfer
pub mod Memory
pub mod Keeps
pub mod Runs
pub mod Stall
pub mod Display
pub mod Reset
