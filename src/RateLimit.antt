-- ===== src/RateLimit.antt =====
-- Rate limiting (meritmolt/ratelimit.py, with meritmolt/middleware_utils.py for the header): route
-- groups, token buckets, the store of buckets, the client's key, and the middleware.
pub mod Routes
pub mod Bucket
pub mod Store
pub mod Client
pub mod Middleware
