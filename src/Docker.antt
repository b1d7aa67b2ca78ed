-- ===== src/Docker.antt =====
-- src/docker: a Dockerfile is parsed into instructions, and these into the build graph.
pub mod Instructions
pub mod Parser
pub mod Dag
