-- ===== src/Operations.antt =====
-- programs/arena-lock-v2/src/processor.rs: what each instruction does to the config and the
-- position that it has loaded, between the checks of its accounts and the stores.
pub mod Lock
pub mod Earn
pub mod Exit
