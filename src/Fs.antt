-- ===== src/Fs.antt =====
-- source/arm9/fs.c, the file system service of the ARM9: drives, file and directory handles, raw
-- access to the NAND, the device buffer and the write protection of parts of the NAND.
pub mod World
pub mod Sectors
pub mod Memory
pub mod State
pub mod Files
pub mod Dirs
pub mod Drives
pub mod Protection
pub mod DevBuf
pub mod RawWrite
pub mod Image
mod Tests
