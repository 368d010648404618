-- ===== src/Examples.antt =====
-- Runs of the models on concrete inputs, and each theorem at an input that meets its conditions.
mod ActorSqliteRuns
mod StorageVersionRuns
mod FacetIndexRuns
mod InputGateRuns
mod AlarmSchedulerRuns
mod AlarmCoordinatorRuns
mod OutputGateRuns
mod FacetDeletionRuns
mod IoContextRuns
mod ActorIdRuns
mod ActorContainerRuns
