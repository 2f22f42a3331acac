-- ===== src/Tests.antt =====
-- Runs of the model and instances of its theorems.
mod Alias
pub mod CallGraph
mod Cha
mod Confine
pub mod Layers
mod Tbaa
