-- ===== src/Apple.antt =====
-- app/mdm/apple: the server's side of Apple's device management protocol.
pub mod Plist
pub mod Commands
pub mod Checkin
pub mod Connect
pub mod Profiles
