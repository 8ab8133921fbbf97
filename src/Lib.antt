-- ===== src/Lib.antt =====
-- MeritMolt: an API server (meritmolt/) that signs agents of the MoltBook network in, limits and
-- queues their requests and ranks agents by MeritRank, and a crawler (textlake/) that copies
-- MoltBook's posts into the same PostgreSQL database.
--
-- How the parts interact: a request passes the backpressure middleware, then the rate limiter, then
-- its endpoint, which works in one database session that is committed after the response is sent and
-- rolled back when the endpoint raises. The crawler's workers claim tasks of the table crawl_task, run their
-- handlers, and delete, postpone or fail the tasks; handlers and the scheduler enqueue new ones.
--
-- The files, by the code that they model (paths from the repository's root):
--   Prelude, Prelude/*: shared names, Boolean tests, lists, replacement by position, membership.
--   Text, Json, Errors, Retrying, Config: Python texts as code points, JSON values, exceptions as
--     values, what tenacity documents, and the settings of meritmolt/config.py.
--   Auth/Tables, Auth/Session: mm_agents and mm_refresh_tokens of meritmolt/database.py as lists of
--     rows, and get_db_session of meritmolt/auth/dependencies.py as a state and error monad.
--   Auth/Base64, Auth/RawToken, Auth/Tokens: meritmolt/auth/tokens.py (mint_refresh_token,
--     rotate_refresh_token, revoke_token, revoke_all_agent_tokens and their helpers).
--   Auth/Moltbook: meritmolt/auth/moltbook.py. Auth/Jwt: meritmolt/auth/jwt.py and
--     get_current_agent. Auth/Router: meritmolt/auth/router.py; `run` is a history of requests.
--   RateLimit: meritmolt/ratelimit.py and middleware_utils.py (RouteGroup.classify in Routes,
--     TokenBucket in Bucket, BucketStore in Store, extract_jwt_sub and the client's address in
--     Client, RateLimitMiddleware in Middleware).
--   Backpressure: meritmolt/backpressure.py; the guard is its counters and the phase of each
--     request, and a history is a list of arrivals, grants, timeouts, cancellations and ends.
--   Database: _split_sql_statements, _is_meritrank_retryable and _meritrank_init_with_retry of
--     meritmolt/database.py.
--   Queue: textlake/models/crawl.py, textlake/handlers/enqueue.py, textlake/queue/worker.py and
--     textlake/queue/scheduler.py; a history is the list of the transactions as they commit.
--   Entities: textlake/upsert.py over the tables of textlake/models/entities.py.
--   Comments: _topological_sort_comment_rows of textlake/handlers/comments.py.
--   Subscriptions: agent_subscription of meritmolt/events/router.py over textlake/models/subscribe.py
--     with the triggers of meritmolt/schema/ddl.py on that table; the calls of pgmer2 are a list.
--   MeritRank: the triggers of meritmolt/schema/ddl.py on mb_post and mb_comment, and meritrank_init, under
--     histories of the crawler's upserts; an edge's weight is that of the latest call about it. Bulk:
--     meritrank_bulk_init, which the start-up runs, as the rows that it selects and its calls.
--   Handlers: textlake/handlers/posts.py, comments.py, submolts.py and search.py over the tables of
--     textlake/models (Store), with the rows that textlake/utils.py and textlake/ids.py build (Stubs); a
--     handler is a function of what client.get comes to, and its result is the tables it commits or an
--     exception, which commits nothing.
--   Scores: the endpoints of meritmolt/scores/router.py and meritmolt/rank/router.py with
--     meritmolt/schema/existence.py, meritmolt/schema/queries.py and the SQL functions that they call;
--     pgmer2 and ORDER BY are a record (Ranker).
--   CrawlClient: MoltbookClient of textlake/client.py; the answers of httpx are a sequence.
--   Tests: runs on concrete inputs.
--
-- Conventions and bounds. Times are natural numbers, of microseconds in the tables and of
-- nanoseconds for the monotonic clock; integers of the settings are natural numbers. The floats of
-- the token bucket are exact: a token has 3600 * 10 ^ 9 units, so that a rate in tokens per hour
-- refills whole units per nanosecond; at the boundary of a whole token the floats may decide
-- otherwise. Requests, upserts and the transactions of the queue run one after the other, and a
-- database statement fails only by the constraints that its table's model names. The clock, uuid4,
-- urandom and all libraries (argon2, PyJWT, httpx, tenacity, ipaddress, hashlib, orjson,
-- str.isalnum) are arguments. The splitter runs on as much fuel as the text has characters, since
-- each turn of its loop consumes at least one; the retries of the start-up are bounded by the
-- source's range(5), and the queue of the comments' sort by the number of comments.
--
-- Not modelled: the rest of the DDL (meritmolt/schema/ddl.py), the waiting of the crawler's limiter,
-- its capture of raw responses, the types and lengths of columns, and logging, engine creation and
-- process start, which are input and output only.
pub mod Prelude
pub mod Text
pub mod Errors
pub mod Config
pub mod Json
pub mod Retrying
pub mod Auth
pub mod RateLimit
pub mod Backpressure
pub mod Queue
pub mod Database
pub mod Entities
pub mod Comments
pub mod Subscriptions
pub mod MeritRank
pub mod Handlers
pub mod Scores
pub mod CrawlClient
pub mod Tests
