-- ===== src/Clipboard/Formats/Descriptor.antt =====
-- The list of files of a FileGroupDescriptorW: `FileDescriptor` of
-- src/rdp/channels/clipboard/core/formats.rs. Of a path, the metadata that the file system gives and
-- the name in UTF-8 are arguments.
pub mod Layout
pub mod Files
pub mod Fits
use Prim.Native.Nat.{bit_and}
use cheirizo.Prelude.{
  ℕ, zero, suc, ◌+◌, ◌*◌, ◌/◌, ◌%◌, Bool, ltb, ◌==◌, if◌then◌else◌, Option, none, some, List, [],
  ◌∷◌, ◌++◌, length, take, drop, replicate, get_or, min, Text,
}
use cheirizo.Prelude.Words.{as_u32}
use cheirizo.Prelude.Utf16.{encode_utf16, from_utf16, units, le16, le32, of_le32}
use cheirizo.Clipboard.Sanitize.{sanitize_filename_for_windows}
use cheirizo.Clipboard.Formats.{
  Converted, ok, err, and_then, ok_or, format_conversion, invalid_utf16, no_metadata,
  invalid_filename, descriptor_too_small, no_count, list_too_small,
}

abbrev pub flag_createtime : ℕ
flag_createtime = 0x02

abbrev pub flag_accesstime : ℕ
flag_accesstime = 0x10

abbrev pub flag_writestime : ℕ
flag_writestime = 0x20

abbrev pub flag_filesize : ℕ
flag_filesize = 0x40

abbrev pub has_flag : ℕ → ℕ → Bool
has_flag flags flag = ltb 0 (bit_and flags flag)

pub record FileDescriptor : Type 0 where
  pub flags : ℕ
  pub attributes : ℕ
  pub creation_time : Option ℕ
  pub access_time : Option ℕ
  pub write_time : Option ℕ
  pub size : Option ℕ
  pub name : Text

abbrev pub u32_at : ℕ → List ℕ → ℕ
u32_at i bytes =
    of_le32 (get_or bytes i 0) (get_or bytes (i + 1) 0) (get_or bytes (i + 2) 0)
      (get_or bytes (i + 3) 0)

abbrev pub u64_at : ℕ → List ℕ → ℕ
u64_at i bytes = u32_at i bytes + 4294967296 * u32_at (i + 4) bytes

abbrev pub take_nonzero : List ℕ → List ℕ
take_nonzero [] = []
take_nonzero (u ∷ us) = if u == 0 then [] else u ∷ take_nonzero us

unfoldable pub parse_utf16_filename : List ℕ → Converted Text
unfolding units from_utf16
parse_utf16_filename bytes =
    if length bytes % 2 == 0
    then ok_or invalid_utf16 (from_utf16 (take_nonzero (units bytes)))
    else err invalid_utf16

abbrev pub if_flag : ℕ → ℕ → ℕ → Option ℕ
if_flag flags flag n = if has_flag flags flag then some n else none

-- The fields of a descriptor, whose name is read last.
abbrev pub descriptor : List ℕ → Text → FileDescriptor
descriptor bytes name =
    let flags = u32_at 0 bytes in
    record {
      flags = flags;
      attributes = u32_at 36 bytes;
      creation_time = if_flag flags flag_createtime (u64_at 40 bytes);
      access_time = if_flag flags flag_accesstime (u64_at 48 bytes);
      write_time = if_flag flags flag_writestime (u64_at 56 bytes);
      size = if_flag flags flag_filesize (4294967296 * u32_at 64 bytes + u32_at 68 bytes);
      name = name;
    }

unfoldable pub parse : List ℕ → Converted FileDescriptor
unfolding parse_utf16_filename
parse bytes =
    if ltb (length bytes) 592
    then err (format_conversion descriptor_too_small)
    else and_then (parse_utf16_filename (take 520 (drop 72 bytes)))
        (λ name. ok (descriptor bytes name))

-- The loop over the descriptors that are left.
unfoldable pub parse_each : ℕ → ℕ → List ℕ → Converted (List FileDescriptor)
unfolding parse
parse_each zero i bytes = ok []
parse_each (suc n) i bytes =
    and_then (parse (take 592 (drop (4 + i * 592) bytes)))
      (λ d. and_then (parse_each n (i + 1) bytes) (λ ds. ok (d ∷ ds)))

unfoldable pub parse_list : List ℕ → Converted (List FileDescriptor)
unfolding parse_each
parse_list bytes =
    if ltb (length bytes) 4
    then err (format_conversion no_count)
    else if u32_at 0 bytes == 0
    then ok []
    else if ltb (length bytes) (4 + u32_at 0 bytes * 592)
    then err (format_conversion list_too_small)
    else parse_each (u32_at 0 bytes) 0 bytes

-- `data[i..i + n].copy_from_slice(bytes)`.
unfoldable pub write : ℕ → List ℕ → List ℕ → List ℕ
write zero [] into = into
write zero (b ∷ bytes) [] = []
write zero (b ∷ bytes) (d ∷ into) = b ∷ write zero bytes into
write (suc i) bytes [] = []
write (suc i) bytes (d ∷ into) = d ∷ write i bytes into

unfoldable pub write_units : ℕ → List ℕ → List ℕ → List ℕ
unfolding write
write_units i [] bytes = bytes
write_units i (u ∷ us) bytes = write_units (i + 2) us (write i (le16 u) bytes)

pub record Metadata : Type 0 where
  pub is_dir : Bool
  pub len : ℕ

unfoldable pub build_header : Metadata → List ℕ → List ℕ
unfolding write
build_header metadata bytes = write 68 (le32 (as_u32 metadata.len)) (
    write 64 (le32 (as_u32 (metadata.len / 4294967296))) (
      write 36 (le32 (if metadata.is_dir then 0x10 else 0x80))
        (write 0 (le32 flag_filesize) bytes)))

module _ (to_uppercase : Text → Text) where
  unfoldable pub build : Option Metadata → Option Text → Converted (List ℕ)
  unfolding build_header write_units sanitize_filename_for_windows encode_utf16
  build metadata file_name = and_then (ok_or (format_conversion no_metadata) metadata) (λ m.
      and_then (ok_or (format_conversion invalid_filename) file_name) (λ raw.
        let us = encode_utf16 (sanitize_filename_for_windows to_uppercase raw) in
        ok (write_units 72 (take (min (length us) 259) us) (build_header m (replicate 592 0)))))

  unfoldable pub build_each : List (Option Metadata × Option Text) → Converted (List ℕ)
  unfolding build
  build_each [] = ok []
  build_each ((metadata, file_name) ∷ paths) =
      and_then (build metadata file_name)
        (λ bytes. and_then (build_each paths) (λ rest. ok (bytes ++ rest)))

  unfoldable pub build_list : List (Option Metadata × Option Text) → Converted (List ℕ)
  unfolding build_each
  build_list paths =
      and_then (build_each paths) (λ bytes. ok (le32 (as_u32 (length paths)) ++ bytes))
