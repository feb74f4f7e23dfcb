-- ===== src/Proxy.antt =====
-- apps/backend/src/services/proxy-router.ts: the circuit breaker, the two load balancers, and the choice of
-- a route for an inference request.
pub mod Breaker
pub mod Balancer
pub mod Route
pub mod Local
mod Examples
mod LocalExamples
