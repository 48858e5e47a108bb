-- ===== src/Server/Tools.antt =====
-- The eleven tools that `_register_tools` registers.
pub mod Profile
pub mod Read
pub mod Remember
pub mod Supersede
pub mod Review
