-- ===== src/Tests.antt =====
-- Runs of the models on concrete inputs, and each result applied where its hypotheses hold.
mod Fixtures
mod Auth
mod RateLimit
mod Backpressure
mod Queue
mod Database
mod Crawl
mod Follows
mod Requests
mod Edges
mod Handlers
mod Scores
mod Bulk
