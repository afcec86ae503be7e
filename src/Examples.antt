-- ===== src/Examples.antt =====
-- Runs of the development on concrete values.
mod Data
mod Workspace
mod Scheduling
mod Screen
mod Input
mod Transport
mod Mirror
mod Patches
