-- ===== src/Windows.antt =====
-- app/mdm/windows: the server's side of the Windows device management protocol.
pub mod Commands
pub mod Xml
pub mod SyncMl
pub mod Session
pub mod Statuses
