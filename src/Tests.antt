-- ===== src/Tests.antt =====
-- The theorems of the development at concrete inputs.
mod Stdio
mod Reader
mod Eval
mod Image
mod Disk
mod Shell
mod Util
mod Boot
mod Install
mod Volume
mod Start
