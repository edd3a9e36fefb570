-- ===== src/Frontend.antt =====
-- colocator/python/colocator.py: the frontend that starts the scheduler and the client threads.
pub mod Barrier
pub mod Env
pub mod Launch
