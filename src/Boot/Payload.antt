-- ===== src/Boot/Payload.antt =====
-- bootloader/getpayload.c: the compressed kernel inside a bzImage.
use tlibc.Base.{
  ℕ, ◌+◌, ◌*◌, ◌%◌, ◌^◌, Bool, Option, none, some, Bytes, Memory, read_out, ◌==◌, not,
  if◌then◌else◌,
}
use tlibc.Boot.Header.{
  linux_sector_size, setup_sects, boot_flag, header, payload_offset, payload_length, get_khdr,
}

-- `BiCheck`: 0 for a header that it takes.
bi_check : Memory → ℕ → ℕ
bi_check m khdr =
    if not (get_khdr m khdr boot_flag == 0xaa55)
    then 1
    else if not (get_khdr m khdr header == 0x53726448)
    then 1
    else 0

-- `BiGetPayload`: the address and the size, or NULL.
bi_get_payload : Memory → ℕ → Option (ℕ × ℕ)
bi_get_payload m filedata =
    let sects = get_khdr m filedata setup_sects in
    let skip_sects = ((if sects == 0 then 4 else sects) + 1) % 2 ^ 8 in
    let offset = (get_khdr m filedata payload_offset + linux_sector_size * skip_sects) % 2 ^ 64 in
    if bi_check m filedata == 0
    then some (filedata + offset, get_khdr m filedata payload_length)
    else none

-- What the calls of `main` on files do: the file's bytes where it is mapped, and the result of the
-- write, as the number of bytes that the output took. `none` is a result of -1.
pub record HostFiles : Type 0 where
  pub size : Option ℕ
  pub mapped : Option (ℕ × Memory)
  pub open_output : Bool
  pub take : ℕ → Option ℕ

-- The exit code of `main` behind the opening of the input, and what is handed to `write`.
pub data Extracted : Type 0 where
  failed : Extracted
  wrote : Bytes → Extracted

write_payload : HostFiles → Memory → Option (ℕ × ℕ) → Extracted
write_payload files m none = failed
write_payload files m (some (addr, len)) =
    if not files.open_output then failed else elim (files.take len) [
      | none ↦ failed
      | some n ↦ if n == len then wrote (read_out m addr len) else failed
    ]

get_payload : HostFiles → Extracted
get_payload files = elim files.size [
  | none ↦ failed
  | some _ ↦ elim files.mapped [
    | none ↦ failed
    | some (filedata, m) ↦ write_payload files m (bi_get_payload m filedata)
  ]
]
