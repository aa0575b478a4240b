-- ===== src/Datapath.antt =====
-- src/lib/spine.h, src/lib/spine_priv.h, src/lib/spine_priv.c and src/lib/spine.c: the datapath and
-- its connections. One module for each group of functions; below each, what is proved of it.
pub mod State
pub mod Timer
pub mod Registry
pub mod Staging
pub mod Invoke
pub mod Run
pub mod Refinement
