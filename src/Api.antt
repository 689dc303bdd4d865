-- ===== src/Api.antt =====
-- src/api: the requests and the responses, and what answers the one with the other.
pub mod Registry
pub mod Dto
pub mod Handler
pub mod Controller
pub mod Middleware
pub mod Program
pub mod Router
pub mod ClientSession
