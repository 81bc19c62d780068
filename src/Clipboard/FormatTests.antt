-- ===== src/Clipboard/FormatTests.antt =====
-- Runs of the sanitizers and of the conversions of formats.
use cheirizo.Prelude.{
  ℕ, ◌+◌, ◌*◌, ◌≤◌, List, length, ◌-◌, ◌≡◌, refl, arith, true, false, leb, ◌&&◌, if◌then◌else◌,
  some, none, [], ◌∷◌, ◌++◌, map, replicate, Text,
}
use cheirizo.Prelude.Strings.{codes}
use cheirizo.Prelude.Utf16.{below_surrogates}
use cheirizo.Clipboard.Sanitize.{
  byte_len, sanitize_filename_for_windows, sanitize_filename_for_linux, sanitize_text_for_linux,
}
use cheirizo.Clipboard.Sanitize.Names.{IsName, IsLinuxChar, sanitize_filename_for_linux-IsName}
use cheirizo.Clipboard.Sanitize.Windows.{
  IsWindowsName, KeepsUnderscore, sanitize_filename_for_windows-IsWindowsName,
}
use cheirizo.Clipboard.Formats.{
  ok, err, and_then, invalid_utf16, format_conversion, descriptor_too_small, list_too_small,
  no_metadata, unicode_to_text, text_to_oem, oem_to_text,
}
use cheirizo.Clipboard.Formats.Descriptor.{
  Metadata, FileDescriptor, u32_at, parse, parse_list, build_list,
}
use cheirizo.Clipboard.Formats.Descriptor.Fits.{parse_list_fits}
use cheirizo.Clipboard.Formats.Descriptor.Layout.{described}
use cheirizo.Clipboard.Formats.Descriptor.Files.{IsFile, present, parse_list-build_list}
use cheirizo.Clipboard.Wire.{
  as_text, as_bytes, unicode_for_client, text_from_client, client_round_trip,
}

abbrev to_upper : Text → Text
to_upper = map (λ c. if leb b'a' c && leb c b'z' then c - 32 else c)

to_upper-KeepsUnderscore : KeepsUnderscore to_upper
to_upper-KeepsUnderscore s = (to_upper s, refl)

sanitize_filename_for_linux-IsName_example :
    IsName IsLinuxChar (sanitize_filename_for_linux (codes "../../etc/passwd"))
sanitize_filename_for_linux-IsName_example =
    sanitize_filename_for_linux-IsName (codes "../../etc/passwd")

linux_names :
    (sanitize_filename_for_linux (codes "path/file.txt") ≡ codes "path_file.txt")
    × (sanitize_filename_for_linux (codes "-dangerous") ≡ codes "_-dangerous")
    × (sanitize_filename_for_linux (codes "..") ≡ codes "_unnamed_")
    × (sanitize_filename_for_linux [] ≡ codes "_unnamed_")
unfolding sanitize_filename_for_linux
linux_names = (refl, refl, refl, refl)

-- 200 letters of two bytes each: the name is cut to 255 characters, not to 255 bytes.
long_name_kept : byte_len (sanitize_filename_for_linux (replicate 200 0xe9)) ≡ 400
unfolding sanitize_filename_for_linux
long_name_kept = refl

-- A cut that ends behind a space leaves the space at the end.
cut_to_space :
    sanitize_filename_for_windows to_upper (replicate 254 b'a' ++ (b' ' ∷ b'b' ∷ []))
    ≡ replicate 254 b'a' ++ (b' ' ∷ [])
unfolding sanitize_filename_for_windows
cut_to_space = refl

sanitize_filename_for_windows-IsWindowsName_example :
    IsWindowsName to_upper (sanitize_filename_for_windows to_upper (codes "con.txt. "))
sanitize_filename_for_windows-IsWindowsName_example =
    sanitize_filename_for_windows-IsWindowsName to_upper to_upper-KeepsUnderscore
      (codes "con.txt. ") (omega arith)

windows_names :
    (sanitize_filename_for_windows to_upper (codes "file:name.txt") ≡ codes "file_name.txt")
    × (sanitize_filename_for_windows to_upper (codes "con.txt. ") ≡ codes "_con.txt")
    × (sanitize_filename_for_windows to_upper (codes "..") ≡ codes "_unnamed_")
unfolding sanitize_filename_for_windows
windows_names = (refl, refl, refl)

abbrev mixed : Text
mixed = b'a' ∷ b'\r' ∷ b'\n' ∷ 0 ∷ b'\n' ∷ b'\r' ∷ 0 ∷ b'\n' ∷ []

-- A letter, the euro sign, and a character that takes two units.
abbrev signs : Text
signs = b'a' ∷ 0x20ac ∷ 0x1f600 ∷ []

-- The middle dot comes back as another character.
middle_dot : and_then (text_to_oem 100 (0xb7 ∷ [])) (oem_to_text 100) ≡ ok (0x2219 ∷ [])
unfolding text_to_oem oem_to_text
middle_dot = refl

-- One half, which code page 437 has, does not.
one_half : and_then (text_to_oem 100 (0xbd ∷ [])) (oem_to_text 100) ≡ ok (b'?' ∷ [])
unfolding text_to_oem oem_to_text
one_half = refl

lone_surrogate : unicode_to_text 100 (0x00 ∷ 0xd8 ∷ 0x61 ∷ 0x00 ∷ []) ≡ err invalid_utf16
unfolding unicode_to_text
lone_surrogate = refl

abbrev report : Metadata × Text
report = (record { is_dir = false; len = 5000000000 }, codes "a:b.txt")

abbrev folder : Metadata × Text
folder = (record { is_dir = true; len = 4096 }, codes "docs ")

report-IsFile : IsFile report
report-IsFile = record {
  len = omega arith;
  scalars = below_surrogates report.1 refl;
  short = omega arith;
}

folder-IsFile : IsFile folder
folder-IsFile = record {
  len = omega arith;
  scalars = below_surrogates folder.1 refl;
  short = omega arith;
}

parse_list-build_list_example :
    and_then (build_list to_upper (map present (report ∷ folder ∷ []))) parse_list
    ≡ ok (
        described report.0 (sanitize_filename_for_windows to_upper (codes "a:b.txt"))
        ∷ described folder.0 (sanitize_filename_for_windows to_upper (codes "docs "))
        ∷ [])
parse_list-build_list_example =
    parse_list-build_list to_upper to_upper-KeepsUnderscore (report ∷ folder ∷ [])
      (report-IsFile, (folder-IsFile, tt)) (omega arith)

-- One descriptor of zeros, whose name is empty, behind its count.
abbrev one_file : List ℕ
one_file = 1 ∷ 0 ∷ 0 ∷ 0 ∷ replicate 592 0

abbrev blank : FileDescriptor
blank = record {
  flags = 0;
  attributes = 0;
  creation_time = none;
  access_time = none;
  write_time = none;
  size = none;
  name = [];
}

one_file_read : parse_list one_file ≡ ok (blank ∷ [])
unfolding parse_list
one_file_read = refl

parse_list_fits_example :
    (length (blank ∷ []) ≡ u32_at 0 one_file) × (4 + length (blank ∷ []) * 592 ≤ length one_file)
parse_list_fits_example = parse_list_fits one_file (blank ∷ []) one_file_read

-- A count that the bytes do not bear out.
count_too_large :
    parse_list (2 ∷ 0 ∷ 0 ∷ 0 ∷ replicate 592 0) ≡ err (format_conversion list_too_small)
unfolding parse_list
count_too_large = refl

failures :
    (parse (replicate 591 0) ≡ err (format_conversion descriptor_too_small))
    × (build_list to_upper ((none, some (codes "a")) ∷ []) ≡ err (format_conversion no_metadata))
unfolding parse build_list
failures = (refl, refl)

client_round_trip_example :
    text_from_client (unicode_for_client mixed) ≡ as_text (sanitize_text_for_linux mixed)
client_round_trip_example = client_round_trip mixed (below_surrogates mixed refl)

short_passed : text_from_client (b'a' ∷ []) ≡ as_bytes (b'a' ∷ [])
unfolding text_from_client
short_passed = refl
