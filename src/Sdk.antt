-- ===== src/Sdk.antt =====
-- The TypeScript SDK (packages/sdk): what its helpers compute.
pub mod Native
pub mod Xdr
pub mod ScVal
pub mod Client
pub mod Perp
pub mod Vault
pub mod Treasury
pub mod Risk
pub mod Bridge
pub mod SlpVault
pub mod Governor
pub mod RwaIssuer
pub mod Staking
pub mod Structured
pub mod Funding
pub mod Oracle
pub mod Clob
mod Tests
pub mod Js
pub mod Gmp
