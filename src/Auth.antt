-- ===== src/Auth.antt =====
-- Authorization and authentication: RBAC, access control lists, tokens and sessions.
pub mod Rbac
pub mod Acl
pub mod Jwt
pub mod Sessions
