-- ===== src/Apple/Connect/Frame.antt =====
-- What the connect handler leaves alone, whatever the device sends.
pub mod Base
mod Evaluation
mod Reports
pub mod Handler
pub use Base.{DeviceKey, device_key, CommandKey, command_key, FrameOf, frame}
pub use Handler.*
