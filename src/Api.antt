-- ===== src/Api.antt =====
-- The API service (services/api/app).
pub mod Models
pub mod Client
pub mod Repositories
pub mod Booking
pub mod Workers
pub mod Tokens
pub mod Auth
pub mod RateLimit
pub mod Middleware
pub mod Events
pub mod Integrity
pub mod Routes
pub mod Tests
