-- ===== src/Fat.antt =====
-- gpt/fat.c and gpt/fat.h: the FAT32 formatter, the mounted view of an image, and the copying of
-- a file into it. An image is a flat memory, and a pointer an address; NULL is 0.
pub mod Time
pub mod Layout
pub mod Create
pub mod Data
pub mod Mount
pub mod Copyin
pub mod Volume
