-- ===== src/Processes.antt =====
-- The processes of EventSphere: what each opens when it starts and closes when it ends
-- (services/api/app/main.py, workers of both services, services/inventory/app/main.py).
pub mod Connections
pub mod Workers
pub mod Servers
pub mod Health
pub mod Calls
pub mod Closing
mod Tests
