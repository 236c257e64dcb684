-- ===== src/Send.antt =====
-- internal/printer/qlbackend/send.go: one job from the status request to its verdict. The printer,
-- the timers and CUPS's cancel are a script: what each wait gets next, and how each write ends.
-- Lines for the log are left out, but for the STATE lines, which CUPS acts on.
pub mod World
pub mod Steps
pub mod Run
pub mod Induction
pub mod Verdict
pub mod Cleared
pub mod Later
pub mod Cases
pub mod Delivery
pub mod Whole
pub mod Prints
