-- ===== src/App/Config.antt =====
-- src/app/config.cpp and config.h, and BleDeviceSpec of src/ble/ble_client.h.
pub mod Atoi
pub mod Spec
pub mod Args
pub mod File
