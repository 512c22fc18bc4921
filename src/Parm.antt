-- ===== src/Parm.antt =====
-- The parameters of the server: c/zis/parm.c, h/zis/parm.h.
pub mod Set
pub mod Record
pub mod MainParms
pub mod Parmlib
