-- ===== src/Tests.antt =====
-- Runs of the model on small inputs, and each theorem with hypotheses at an input that meets them.
mod Trees
mod Fleets
mod Choices
mod Rings
mod Replays
mod Workloads
mod Simulations
mod Gateways
mod Renders
