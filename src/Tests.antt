-- ===== src/Tests.antt =====
-- Runs of the code at fixed inputs, and the theorems at inputs that meet their hypotheses.
mod Identity
mod Modem
mod Radio
mod Board
mod Cmdline
mod Machine
mod Suite
mod Ratio
mod Start
mod Offload
mod Exec
mod Process
mod Signals
mod Fuzz
