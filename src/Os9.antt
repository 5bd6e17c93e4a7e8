-- ===== src/Os9.antt =====
-- crates/cdi-os9/src/module.rs: OS-9 module headers in a ROM or memory image, and the scans for them.
-- An image is the list of its bytes, and a name is the list of its characters' codes.
pub mod Checksum
pub mod Header
pub mod Scan
pub mod Csd
pub mod Pieces
pub mod Records
use edi_emulator.Prelude.{
  ℕ, zero, suc, ◌+◌, ◌-◌, ◌*◌, ◌/◌, ◌%◌, ◌^◌, max, bit_xor, Bool, true, false, not, ◌&&◌, ◌||◌, ltb,
  leb, ◌==◌, if◌then◌else◌, List, [], ◌∷◌, ◌++◌, Option, none, some, get_or, length, take, drop, u8,
  u32, has_bit,
}

abbrev pub sync : ℕ
sync = 0x4afc

abbrev pub header_len : ℕ
header_len = 0x30

pub data ModuleType : Type 0 where
  program subroutine multi data_module csd_data trap_lib system file_manager driver descriptor :
      ModuleType
  other : ℕ → ModuleType

-- `From<u8>`
unfoldable pub module_type : ℕ → ModuleType
module_type v =
    if v == 1
    then program
    else if v == 2
    then subroutine
    else if v == 3
    then multi
    else if v == 4
    then data_module
    else if v == 5
    then csd_data
    else if v == 11
    then trap_lib
    else if v == 12
    then system
    else if v == 13
    then file_manager
    else if v == 14
    then driver
    else if v == 15
    then descriptor
    else other v

unfoldable pub code : ModuleType → ℕ
code program = 1
code subroutine = 2
code multi = 3
code data_module = 4
code csd_data = 5
code trap_lib = 11
code system = 12
code file_manager = 13
code driver = 14
code descriptor = 15
code (other v) = v

pub record Module : Type 0 where
  pub offset : ℕ
  pub size : ℕ
  pub name : List ℕ
  pub mod_type : ModuleType
  pub language : ℕ
  pub attributes : ℕ
  pub revision : ℕ
  pub edition : ℕ
  pub crc_ok : Bool

abbrev pub be16 : List ℕ → ℕ → ℕ
be16 d off = get_or d off 0 * 2 ^ 8 + get_or d (off + 1) 0

abbrev pub be32 : List ℕ → ℕ → ℕ
be32 d off = be16 d off * 2 ^ 16 + be16 d (off + 2)

-- The XOR of `n` words from an offset on.
unfoldable pub xor_words : ℕ → List ℕ → ℕ → ℕ → ℕ
xor_words zero h off acc = acc
xor_words (suc n) h off acc = xor_words n h (off + 2) (bit_xor acc (be16 h off))

unfoldable pub header_parity_ok : List ℕ → Bool
unfolding xor_words
header_parity_ok h = xor_words 24 h 0 0 == 0xffff

abbrev pub crc24_poly : ℕ
crc24_poly = 0x80_0063

abbrev pub crc24_magic : ℕ
crc24_magic = 0x80_0fe3

abbrev pub crc24_bit : ℕ → ℕ
crc24_bit acc =
    let shifted = u32 (acc * 2) in
    if has_bit shifted 24 then bit_xor shifted crc24_poly else shifted

abbrev pub crc24_bits : ℕ → ℕ → ℕ
crc24_bits zero acc = acc
crc24_bits (suc n) acc = crc24_bits n (crc24_bit acc)

unfoldable pub crc24_bytes : List ℕ → ℕ → ℕ
crc24_bytes [] acc = acc
crc24_bytes (b ∷ bs) acc = crc24_bytes bs (crc24_bits 8 (bit_xor acc (b * 2 ^ 16)) % 2 ^ 24)

unfoldable pub crc24 : List ℕ → ℕ
unfolding crc24_bytes
crc24 bytes = crc24_bytes bytes 0xff_ffff

-- A name ends at a zero, after a character with bit 7, or with the module.
unfoldable pub read_cstr : List ℕ → List ℕ
read_cstr [] = []
read_cstr (b ∷ bs) =
    let rest = read_cstr bs in
    if b % 2 ^ 7 == 0 then [] else if has_bit b 7 then b % 2 ^ 7 ∷ [] else b % 2 ^ 7 ∷ rest

-- The module with a header at `off`.
unfoldable pub module_at : List ℕ → ℕ → Module
unfolding read_cstr module_type crc24
module_at image off =
    let size = be32 image (off + 0x04) in
    let bytes = take size (drop off image) in
    let type_lang = be16 image (off + 0x12) in
    let attr_rev = be16 image (off + 0x14) in
    record {
      offset = u32 off;
      size = size;
      name = read_cstr (drop (be32 image (off + 0x0c)) bytes);
      mod_type = module_type (type_lang / 2 ^ 8);
      language = u8 type_lang;
      attributes = attr_rev / 2 ^ 8;
      revision = u8 attr_rev;
      edition = be16 image (off + 0x16);
      crc_ok = crc24 bytes == crc24_magic;
    }

-- The tests of `parse_module_at`; the sum of an offset and a size does not overflow 64 bits.
unfoldable pub is_header : List ℕ → ℕ → Bool
unfolding header_parity_ok
is_header image off =
    let size = be32 image (off + 0x04) in
    leb (off + header_len) (length image)
    && be16 image off == sync
    && header_parity_ok (take header_len (drop off image))
    && leb header_len size
    && leb (off + size) (length image)
    && ltb (be32 image (off + 0x0c)) size

unfoldable pub parse_module_at : List ℕ → ℕ → Option Module
unfolding is_header module_at
parse_module_at image off = if is_header image off then some (module_at image off) else none

-- Where a scan goes on: behind the module, at an even offset.
abbrev pub behind : ℕ → Module → ℕ
behind off m = let end = off + m.size in max (end + end % 2) (off + 2)

-- A round of a scan: the modules that it adds, and where the scan goes on.
unfoldable pub scan_round : Option Module → ℕ → List Module × ℕ
scan_round none off = ([], off + 2)
scan_round (some m) off = (m ∷ [], behind off m)

unfoldable pub scan_from : ℕ → List ℕ → ℕ → List Module
unfolding parse_module_at scan_round
scan_from zero image off = []
scan_from (suc fuel) image off =
    let round = scan_round (parse_module_at image off) off in
    let rest = scan_from fuel image round.1 in
    if leb (off + header_len) (length image) then round.0 ++ rest else []

-- Each round moves on by at least two bytes.
unfoldable pub scan_modules : List ℕ → List Module
unfolding scan_from
scan_modules image = scan_from (length image) image 0

-- A round that skips a module with a wrong checksum as if it were none.
unfoldable pub valid_round : Option Module → ℕ → List Module × ℕ
valid_round none off = ([], off + 2)
valid_round (some m) off = if m.crc_ok then (m ∷ [], behind off m) else ([], off + 2)

unfoldable pub scan_valid_from : ℕ → List ℕ → ℕ → ℕ → List Module
unfolding parse_module_at valid_round
scan_valid_from zero image limit off = []
scan_valid_from (suc fuel) image limit off =
    let round = valid_round (parse_module_at image off) off in
    let rest = scan_valid_from fuel image (limit - length round.0) round.1 in
    if leb (off + header_len) (length image) && ltb 0 limit then round.0 ++ rest else []

unfoldable pub scan_valid_modules : List ℕ → ℕ → List Module
unfolding scan_valid_from
scan_valid_modules image limit = scan_valid_from (length image) image limit 0
