-- ===== src/Example.antt =====
-- A small world in which the verifiers of verify/verify_mark.py run: toy libraries, documents that
-- pass, and the theorems applied to them.
mod World
mod Documents
mod Running
mod RunningAgent
mod Registry
mod Runs
mod Agent
mod Need
mod Issued
mod Marks
mod Frozen
