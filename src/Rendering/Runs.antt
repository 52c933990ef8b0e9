-- ===== src/Rendering/Runs.antt =====
-- What holds in runs of the four kinds of calls that Rendering has.
use drqueue.Job.{Job}
use drqueue.Database.{Database}
use drqueue.Database.Consistent.{Consistent}
