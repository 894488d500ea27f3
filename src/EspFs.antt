-- ===== src/EspFs.antt =====
-- The read-only file system of espfs/espfs.c and espfs/espfsformat.h, over the memory that the flash is
-- mapped to: a byte for each address.
pub mod Memory
pub mod Read
pub mod Extract
use ems_esp_link.Prelude.{
  ℕ, zero, suc, ◌+◌, ◌-◌, ◌*◌, ◌/◌, ◌%◌, ◌^◌, Bool, true, false, not, Option, none, some, List, [],
  ◌∷◌, ltb, ◌==◌, if◌then◌else◌, get_or,
}
use ems_esp_link.Prelude.Text.{Bytes, c_string, str_eq}
use ems_esp_link.Prelude.Words.{slt, add32, sub32}

-- The bytes of the address space.
abbrev pub Memory : Type 0
Memory = ℕ → ℕ

-- `os_memcpy` of so many bytes from an address.
unfoldable pub bytes_at : Memory → ℕ → ℕ → Bytes
bytes_at m p zero = []
bytes_at m p (suc n) = m p ∷ bytes_at m (suc p) n

-- The word at an aligned address, and its byte by the lower two bits of an address.
abbrev pub word_at : Memory → ℕ → ℕ
word_at m a = m a + 2 ^ 8 * m (a + 1) + 2 ^ 16 * m (a + 2) + 2 ^ 24 * m (a + 3)

abbrev pub byte_of : ℕ → ℕ → ℕ
byte_of w b =
    if b == 0
    then w % 2 ^ 8
    else if b == 1
    then w / 2 ^ 8 % 2 ^ 8
    else if b == 2
    then w / 2 ^ 16 % 2 ^ 8
    else w / 2 ^ 24 % 2 ^ 8

unfoldable pub aligned_byte : Memory → ℕ → ℕ
aligned_byte m src = byte_of (word_at m (src - src % 4)) (src % 4)

-- `memcpyAligned`
unfoldable pub memcpy_aligned : Memory → ℕ → ℕ → Bytes
memcpy_aligned m src zero = []
memcpy_aligned m src (suc len) = aligned_byte m src ∷ memcpy_aligned m (suc src) len

-- Little-endian fields of what has been copied.
abbrev pub le16 : Bytes → ℕ → ℕ
le16 s i = get_or s i 0 + 2 ^ 8 * get_or s (i + 1) 0

abbrev pub le32 : Bytes → ℕ → ℕ
le32 s i =
    get_or s i 0
    + 2 ^ 8 * get_or s (i + 1) 0
    + 2 ^ 16 * get_or s (i + 2) 0
    + 2 ^ 24 * get_or s (i + 3) 0

-- ESPFS_MAGIC, and the size of a header
abbrev pub espfs_magic : ℕ
espfs_magic = 0x73665345

abbrev pub header_len : ℕ
header_len = 16

-- `EspFsHeader`: the patterns of the fields.
pub record EspFsHeader : Type 0 where
  pub magic : ℕ
  pub flags : ℕ
  pub compression : ℕ
  pub name_len : ℕ
  pub file_len_comp : ℕ
  pub file_len_decomp : ℕ

abbrev pub header_of : Bytes → EspFsHeader
header_of s = record {
  magic = le32 s 0;
  flags = get_or s 4 0;
  compression = get_or s 5 0;
  name_len = le16 s 6;
  file_len_comp = le32 s 8;
  file_len_decomp = le32 s 12;
}

-- `EspFsInitResult`
pub data InitResult : Type 0 where
  init_ok no_image bad_align : InitResult

-- `espFsInit`: the result, and `espFsData`, which is `none` where it is NULL.
unfoldable pub espfs_init : Memory → ℕ → Option ℕ → InitResult × Option ℕ
espfs_init m flash_address data_start =
    if not (flash_address % 4 == 0)
    then (bad_align, data_start)
    else if not ((header_of (bytes_at m flash_address header_len)).magic == espfs_magic)
    then (no_image, data_start)
    else (init_ok, some flash_address)

-- `EspFsFile`: the pointers are addresses.
pub record EspFsFile : Type 0 where
  pub header : ℕ
  pub decompressor : ℕ
  pub pos_decomp : ℕ
  pub pos_start : ℕ
  pub pos_comp : ℕ

-- An `int16_t` or an `int8_t`, as an `int` pattern.
abbrev pub from_int16 : ℕ → ℕ
from_int16 n = if ltb n (2 ^ 15) then n else n + 2 ^ 32 - 2 ^ 16

abbrev pub from_int8 : ℕ → ℕ
from_int8 n = if ltb n (2 ^ 7) then n else n + 2 ^ 32 - 2 ^ 8

-- Behind the name and the content, up to the next multiple of 4.
unfoldable pub next_file : ℕ → EspFsHeader → ℕ
next_file p h =
    let q = (p + header_len + from_int16 h.name_len + h.file_len_comp) % 2 ^ 32 in
    if q % 4 == 0 then q else add32 q (4 - q % 4)

-- The file whose header stands at an address, if there is memory for it and it is not compressed.
unfoldable pub file_at : ℕ → EspFsHeader → Bool → Option EspFsFile
file_at hpos h has_memory =
    let p = (hpos + header_len + from_int16 h.name_len) % 2 ^ 32 in
    if not has_memory
    then none
    else if h.compression == 0
    then some (record {
      header = hpos;
      decompressor = h.compression;
      pos_decomp = 0;
      pos_start = p;
      pos_comp = p;
    })
    else none

-- The search for a name, on fuel: `none` is out of fuel, and `some none` is NULL.
unfoldable pub search : ℕ → Memory → Bytes → Bool → ℕ → Option (Option EspFsFile)
search zero m name has_memory p = none
search (suc f) m name has_memory p =
    let h = header_of (bytes_at m p header_len) in
    let rest = search f m name has_memory (next_file p h) in
    if not (h.magic == espfs_magic)
    then some none
    else if h.flags % 2 == 1
    then some none
    else if str_eq (c_string (bytes_at m (p + header_len) 256)) name
    then some (file_at p h has_memory)
    else rest

unfoldable pub strip_slashes : Bytes → Bytes
strip_slashes [] = []
strip_slashes (c ∷ s) = let rest = strip_slashes s in if c == b'/' then rest else c ∷ s

-- `espFsOpen`
unfoldable pub espfs_open : ℕ → Memory → Option ℕ → Bytes → Bool → Option (Option EspFsFile)
espfs_open fuel m none name has_memory = some none
espfs_open fuel m (some p) name has_memory = search fuel m (strip_slashes name) has_memory p

-- `espFsFlags`: -1 for NULL.
unfoldable pub espfs_flags : Memory → Option EspFsFile → ℕ
espfs_flags m none = 2 ^ 32 - 1
espfs_flags m (some fh) = from_int8 (get_or (memcpy_aligned m (fh.header + 4) 1) 0 0)

-- The length that is left, and the loop of `memcpyAligned` for an `int`, which a negative one ends.
abbrev pub read_len : Memory → EspFsFile → ℕ → ℕ
read_len m fh len =
    let to_read =
      sub32 (le32 (memcpy_aligned m (fh.header + 8) 4) 0) (sub32 fh.pos_comp fh.pos_start) in
    if slt to_read len then to_read else len

abbrev pub count : ℕ → ℕ
count len = if slt len 0 then 0 else len

-- `espFsRead`: the result, the bytes in `buff`, and the file.
unfoldable pub espfs_read : Memory → Option EspFsFile → ℕ → ℕ × Bytes × Option EspFsFile
espfs_read m none len = (0, [], none)
espfs_read m (some fh) len =
    let n = read_len m fh len in
    if fh.decompressor == 0
    then (
      n,
      memcpy_aligned m fh.pos_comp (count n),
      some (record fh { pos_decomp = add32 fh.pos_decomp n; pos_comp = add32 fh.pos_comp n }),
    )
    else (0, [], some fh)
