-- ===== src/Boot.antt =====
-- bootloader/: the programs that start a kernel from the disk image, and the tools that prepare
-- their images. A disk is read sector by sector into a flat memory; both run on x86, so a number
-- in memory is little-endian. A pointer of the 32-bit loaders is an address.
pub mod Disk
pub mod Mbr
pub mod ReadFile
pub mod Vmlinux
pub mod Header
pub mod BzImage
pub mod Payload
pub mod GetText
