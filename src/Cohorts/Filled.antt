-- ===== src/Cohorts/Filled.antt =====
-- A freed seat is never left empty while someone waits.
use emis.Registry.{Registry}
