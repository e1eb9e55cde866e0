-- ===== src/Discovery.antt =====
-- Discovery of devices by a search over the UIDs.
pub mod SearchTree
pub mod Service
