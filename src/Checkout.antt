-- ===== src/Checkout.antt =====
-- src/checkout: the offline files. A PEM envelope holds a certificate, the certificate a signed
-- payload, and the payload a resource with its claims.
mod Samples
pub mod Primitives
pub mod Pem
pub mod Cert
pub mod Claims
pub mod KeySet
pub mod Payload
pub mod LicenseFile
pub mod MachineFile
pub mod Parser
