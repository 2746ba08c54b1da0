-- ===== src/Router.antt =====
-- router.go: the domain of a cookie, the interceptor of responses, what the ingress does with a request, and
-- which servers listen. DispatchProtocol is with the gateway.
pub mod Domain
pub mod Interceptor
pub mod Ingress
pub mod Listeners
pub mod Kernel
mod Tests
