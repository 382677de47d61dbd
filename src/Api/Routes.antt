-- ===== src/Api/Routes.antt =====
-- services/api/app/api/v1: the routes, on requests that Pydantic has accepted. A raised domain
-- exception becomes the answer with the status of `http_status`.
pub mod Auth
pub mod Orders
pub mod Events
mod Tests
