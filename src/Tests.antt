-- ===== src/Tests.antt =====
-- The theorems at concrete inputs, and runs of the model.
mod Routing
mod Mcp
mod Aggregator
mod Reconciler
mod Worker
mod RoutingService
mod Sessions
mod SessionTable
mod Pricing
mod PlatformProxy
mod Claude
mod Observability
mod Relay
mod Manual
