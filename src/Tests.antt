-- ===== src/Tests.antt =====
-- Runs of the models on small inputs, and each theorem applied to one.
mod Jobs
mod Printing
mod Weighing
mod Hub
mod Stations
mod Requests
mod Services
mod Whole
