-- ===== src/Tests.antt =====
-- Runs of the model at concrete inputs, with the theorems applied to them.
mod Parm
mod Server
mod Config
mod Plugin
mod Tss
mod Aux
mod Host
mod Core
