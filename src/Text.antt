-- ===== src/Text.antt =====
-- Text as the program handles it: a `CString`, `CStringA` or `std::string` is the list of its
-- character codes. Names of the parts below; the functions stand in the children.
pub mod Defs
pub mod Split
pub mod Chunks
pub mod Escape
