-- ===== src/Examples.antt =====
-- Concrete runs of the modelled code.
mod PoolRuns
mod QueueRuns
mod StoreRuns
mod SerdeRuns
mod KafkaRuns
mod ConfigRuns
mod HandleRuns
mod DelayRuns
mod JoinRuns
mod AppRuns
mod CallbackRuns
mod OperatorRuns
mod RegistryRuns
mod LinkRuns
