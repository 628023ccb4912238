-- ===== src/FanDaemon.antt =====
-- src/07_miniproj/daemon: the user-space daemon between the driver's sysfs files, three buttons, a
-- LED, the OLED screen and the clients of a UNIX socket. Answers of the system are arguments.
pub mod Calls
pub mod Fan
pub mod FanLaws
pub mod Gpios
pub mod Font
pub mod Oled
pub mod Screen
pub mod Socket
pub mod SocketLaws
pub mod Events
pub mod Daemonize
pub mod Pool
pub mod Stale
pub mod Buttons
mod Tests
