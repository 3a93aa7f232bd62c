-- ===== src/Scheduler.antt =====
-- The scheduler plugins: deployer/schedule_plugin/pkg/plugin.
pub mod Word
pub mod Reserve
pub mod Gang

-- framework.Code, with the codes that the plugins return; the messages are left out.
pub data Code : Type 0 where
  success unschedulable unschedulable_and_unresolvable wait internal_error : Code
