-- ===== src/Service.antt =====
-- internal/service/ticket_service.go: tickets, devices and queries over all the nodes.
pub mod Ids
pub mod Query
pub mod Rows
pub mod Answering
pub mod Listing
pub mod Assign
pub mod Fleet
pub mod Raise
pub mod Adding
pub mod Everywhere
pub mod Devices
mod Tests
