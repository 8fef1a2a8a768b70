-- ===== src/Tests.antt =====
-- The theorems at concrete inputs, and runs of the code.
mod World
mod Procs
mod Files
mod Texts
mod Drive
mod Machine
mod Names
mod Paths
mod OpenFiles
mod Removals
mod Lines
mod Reaching
mod Output
mod Programs
