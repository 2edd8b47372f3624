-- ===== src/Tests.antt =====
-- Runs of the model on concrete inputs, and the theorems at inputs that meet their hypotheses.
mod Sample
mod IdentRuns
mod SessionRuns
mod Volumes
mod VolumeRuns
mod RebuildRuns
mod Outside
mod TransitionRuns
mod LifecycleRuns
mod BatchRuns
mod DeletionRuns
mod StartRuns
mod CreateRuns
mod DriverRuns
