-- ===== src/Proxy.antt =====
-- The forward proxy: apps/gateway-backend/src/modules/proxy.
pub mod Url
pub mod Dns
pub mod ConnectTarget
pub mod RateLimit
pub mod BypassToken
pub mod ThreatScanCache
pub mod Inspection
pub mod Headers
pub mod Forward
pub mod HtmlEscape
pub mod Policy
pub mod Pipeline
pub mod Examples
mod PipelineExamples
