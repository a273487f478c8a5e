-- ===== src/Tests.antt =====
-- Concrete pools, caches and requests, and the theorems at them.
mod Demo
mod Memory
mod Cache
mod Serving
mod Drafting
mod Stages
mod Rows
mod Prefilling
mod Requests
mod Runs
mod Beats
mod Waves
mod Configs
mod Ranks
