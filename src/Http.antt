-- ===== src/Http.antt =====
-- The layer between a request and the controllers: the tenant of the request (src/middleware), the
-- guards that authenticate it, pagination, and the filter that answers what is thrown.
pub mod Request
pub mod Exceptions
pub mod Filter
pub mod Answers
pub mod Middleware
pub mod Hosts
pub mod Guards
pub mod Pagination
pub mod Tests
pub mod Logging
