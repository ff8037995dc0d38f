-- ===== src/Keeper.antt =====
-- The keeper (packages/keeper): off-chain workers that act on the contracts on a schedule.
pub mod Chain
pub mod Clob
pub mod Yield
pub mod Sweeper
pub mod AdminOracle
pub mod Bridge
pub mod Liquidation
pub mod Worker
pub mod Invoke
pub mod Sweeps
pub mod Ttl
pub mod Pusher
pub mod Nav
pub mod NavPusher
pub mod Sources
pub mod Queue
pub mod Health
pub mod Redstone
pub mod Wire
