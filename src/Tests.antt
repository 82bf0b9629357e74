-- ===== src/Tests.antt =====
-- Runs of the model on concrete inputs, and the theorems at inputs that meet their hypotheses.
mod Codec
mod Samples
mod Stores
mod Mappers
mod Payments
mod Secrets
mod Settings
mod Administration
mod Publishing
mod Connections
mod Holds
mod Middlewares
mod Updates
mod Lifecycles
mod Goroutines
mod Startup
mod Delivery
mod Requests
