-- ===== src/Network/Tests.antt =====
-- The network manager on concrete platforms.
mod Platform
mod Calls
mod Arrivals
mod Race
