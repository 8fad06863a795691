-- ===== src/Tests.antt =====
-- The theorems at concrete inputs, and runs of the code.
mod Machines
mod Access
mod Requests
mod Engagements
