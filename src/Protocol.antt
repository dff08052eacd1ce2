-- ===== src/Protocol.antt =====
-- The enumerations of the Zcash crates that the program matches on or builds, by the variants
-- that its sources name.
pub data Network : Type 0 where
  main_network test_network : Network

pub data ShieldedProtocol : Type 0 where
  sapling orchard : ShieldedProtocol

pub data PoolType : Type 0 where
  transparent : PoolType
  shielded : ShieldedProtocol → PoolType

pub data ScanPriority : Type 0 where
  ignored scanned historic open_adjacent found_note chain_tip verify : ScanPriority
