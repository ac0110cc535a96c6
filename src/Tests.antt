-- ===== src/Tests.antt =====
-- Concrete runs of the definitions, and the theorems at concrete inputs.
mod Samples
mod Openers
mod ModelTests
mod UtilTests
mod DbTests
mod RouteTests
mod CacheTests
mod MiddlewareTests
mod BrokerTests
mod RequestTests
mod MongoTests
mod DriverTests
mod CryptoTests
mod CertTests
mod SystemTests
mod ServerTests
