-- ===== src/Workers.antt =====
-- hiring-service/src/app/workers/
pub mod World
pub mod Chunking
pub mod EmployeeWriter
pub mod Process
