-- ===== src/JobOps/Blocked.antt =====
-- What `cancel` does to the group of a job that is processing.
use flashq.Prelude.{nat_eq, string_eq}
use flashq.Dict
use flashq.Protocol.Job.{Job}
use flashq.Shard.{Shard}
use flashq.Manager.{Manager}
