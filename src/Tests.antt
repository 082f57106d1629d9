-- ===== src/Tests.antt =====
-- The theorems at concrete inputs, and the interfaces filled by concrete stores.
mod Memory
mod Files
mod Data
mod Platform
mod Authz
mod Service
mod Requests
mod Tenants
mod Floats
mod Ratelimit
mod Engine
mod Proposals
mod Access
mod Quotas
mod Startup
