-- ===== src/Controllers.antt =====
-- internal/provider/controllers: one module for each controller, and what they share.
pub mod Common
pub mod PowerOperation
pub mod WipeStatus
pub mod RebootStatus
pub mod Manual
pub mod Removal
pub mod InfraMachineStatus
pub mod BmcConfiguration
pub mod MachineStatus
