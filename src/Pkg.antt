-- ===== src/Pkg.antt =====
-- Packages: what to install, and in which order.
pub mod Repo
pub mod Choose
pub mod Plan
pub mod Apply
pub mod Tarjan
