-- ===== src/Firmware.antt =====
-- The firmware image tool of firmware/image.c and the network device of firmware/nic_model.c.
pub mod Header
pub mod Image
pub mod Policy
mod Examples
