-- ===== src/Core.antt =====
-- Core services of the server, c/zis/services: authorization, the copy from another address
-- space, and the network management interface. SAF, SRBs, that interface, common storage and
-- recovery are parameters.
pub mod Auth
pub mod Snarfer
pub mod Nwm
