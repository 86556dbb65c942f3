-- ===== src/Tests.antt =====
-- Sample data, tests and the theorems at concrete inputs.
pub mod Sample
mod Scheduling
mod Running
mod Commanding
mod Dispatching
mod Cataloging
mod Playing
mod Reporting
mod Signing
mod Storing
mod Seeding
