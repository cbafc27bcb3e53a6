-- ===== src/Md5.antt =====
-- The MD5 class of `WPD_MTP_data/verity/MyMd5.h` and `MyMd5.cpp`.
pub mod Codec
pub mod Transform
pub mod Context
pub mod Spec
