-- ===== src/Tests.antt =====
-- Concrete inputs at which the theorems about the parts of the program apply.
mod Traffic
mod Money
mod Changes
mod Bodies
mod Plans
mod Notices
mod Jobs
mod Evidence
mod Prices
mod Streams
mod Caches
