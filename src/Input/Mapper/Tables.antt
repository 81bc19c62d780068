-- ===== src/Input/Mapper/Tables.antt =====
-- The tables that `ScancodeMapper::new` fills in src/rdp/channels/input/mapper.rs: the pairs of a scancode
-- and an evdev key code, the constants of its module `keycodes` written out.
use cheirizo.Prelude.{ℕ, List, [], ◌∷◌, Text}
use cheirizo.Prelude.Strings.{codes}

abbrev pub Table : Type 0
Table = List (ℕ × ℕ)

abbrev pub primary_table : Table
primary_table =
    (0x01, 1)
    ∷ (0x02, 2)
    ∷ (0x03, 3)
    ∷ (0x04, 4)
    ∷ (0x05, 5)
    ∷ (0x06, 6)
    ∷ (0x07, 7)
    ∷ (0x08, 8)
    ∷ (0x09, 9)
    ∷ (0x0a, 10)
    ∷ (0x0b, 11)
    ∷ (0x0c, 12)
    ∷ (0x0d, 13)
    ∷ (0x0e, 14)
    ∷ (0x0f, 15)
    ∷ (0x10, 16)
    ∷ (0x11, 17)
    ∷ (0x12, 18)
    ∷ (0x13, 19)
    ∷ (0x14, 20)
    ∷ (0x15, 21)
    ∷ (0x16, 22)
    ∷ (0x17, 23)
    ∷ (0x18, 24)
    ∷ (0x19, 25)
    ∷ (0x1a, 26)
    ∷ (0x1b, 27)
    ∷ (0x1c, 28)
    ∷ (0x1d, 29)
    ∷ (0x1e, 30)
    ∷ (0x1f, 31)
    ∷ (0x20, 32)
    ∷ (0x21, 33)
    ∷ (0x22, 34)
    ∷ (0x23, 35)
    ∷ (0x24, 36)
    ∷ (0x25, 37)
    ∷ (0x26, 38)
    ∷ (0x27, 39)
    ∷ (0x28, 40)
    ∷ (0x29, 41)
    ∷ (0x2a, 42)
    ∷ (0x2b, 43)
    ∷ (0x2c, 44)
    ∷ (0x2d, 45)
    ∷ (0x2e, 46)
    ∷ (0x2f, 47)
    ∷ (0x30, 48)
    ∷ (0x31, 49)
    ∷ (0x32, 50)
    ∷ (0x33, 51)
    ∷ (0x34, 52)
    ∷ (0x35, 53)
    ∷ (0x36, 54)
    ∷ (0x37, 55)
    ∷ (0x38, 56)
    ∷ (0x39, 57)
    ∷ (0x3a, 58)
    ∷ (0x3b, 59)
    ∷ (0x3c, 60)
    ∷ (0x3d, 61)
    ∷ (0x3e, 62)
    ∷ (0x3f, 63)
    ∷ (0x40, 64)
    ∷ (0x41, 65)
    ∷ (0x42, 66)
    ∷ (0x43, 67)
    ∷ (0x44, 68)
    ∷ (0x45, 69)
    ∷ (0x46, 70)
    ∷ (0x47, 71)
    ∷ (0x48, 72)
    ∷ (0x49, 73)
    ∷ (0x4a, 74)
    ∷ (0x4b, 75)
    ∷ (0x4c, 76)
    ∷ (0x4d, 77)
    ∷ (0x4e, 78)
    ∷ (0x4f, 79)
    ∷ (0x50, 80)
    ∷ (0x51, 81)
    ∷ (0x52, 82)
    ∷ (0x53, 83)
    ∷ (0x54, 99)
    ∷ (0x56, 86)
    ∷ (0x57, 87)
    ∷ (0x58, 88)
    ∷ (0x59, 117)
    ∷ (0x5a, 183)
    ∷ (0x5b, 184)
    ∷ (0x5c, 185)
    ∷ (0x5d, 186)
    ∷ (0x5e, 187)
    ∷ (0x5f, 188)
    ∷ (0x60, 189)
    ∷ (0x61, 190)
    ∷ (0x62, 191)
    ∷ (0x63, 192)
    ∷ (0x64, 193)
    ∷ (0x65, 194)
    ∷ (0x70, 90)
    ∷ (0x71, 94)
    ∷ (0x72, 92)
    ∷ (0x73, 89)
    ∷ (0x74, 124)
    ∷ (0x75, 122)
    ∷ (0x76, 123)
    ∷ (0x77, 125)
    ∷ (0x78, 126)
    ∷ (0x79, 127)
    ∷ (0x7a, 128)
    ∷ (0x7b, 129)
    ∷ (0x7c, 130)
    ∷ (0x7d, 131)
    ∷ (0x7e, 132)
    ∷ (0x7f, 133)
    ∷ []

abbrev pub extended_table : Table
extended_table =
    (0xe01c, 96)
    ∷ (0xe01d, 97)
    ∷ (0xe020, 113)
    ∷ (0xe021, 140)
    ∷ (0xe022, 164)
    ∷ (0xe024, 166)
    ∷ (0xe02e, 114)
    ∷ (0xe030, 115)
    ∷ (0xe032, 172)
    ∷ (0xe035, 98)
    ∷ (0xe037, 210)
    ∷ (0xe038, 100)
    ∷ (0xe045, 119)
    ∷ (0xe047, 102)
    ∷ (0xe048, 103)
    ∷ (0xe049, 104)
    ∷ (0xe04b, 105)
    ∷ (0xe04d, 106)
    ∷ (0xe04f, 107)
    ∷ (0xe050, 108)
    ∷ (0xe051, 109)
    ∷ (0xe052, 110)
    ∷ (0xe053, 111)
    ∷ (0xe05b, 125)
    ∷ (0xe05c, 126)
    ∷ (0xe05d, 139)
    ∷ (0xe05e, 116)
    ∷ (0xe05f, 142)
    ∷ (0xe063, 143)
    ∷ (0xe065, 217)
    ∷ (0xe066, 156)
    ∷ (0xe067, 173)
    ∷ (0xe068, 128)
    ∷ (0xe069, 159)
    ∷ (0xe06a, 158)
    ∷ (0xe06b, 157)
    ∷ (0xe06c, 155)
    ∷ (0xe06d, 226)
    ∷ (0xe010, 165)
    ∷ (0xe019, 163)
    ∷ (0xe02c, 161)
    ∷ []

abbrev pub e1_table : Table
e1_table = (0xe11d45, 119) ∷ (0xe11d46, 411) ∷ []

abbrev pub de_table : Table
de_table = (0x15, 44) ∷ (0x2c, 21) ∷ []

abbrev pub fr_table : Table
fr_table = (0x10, 30) ∷ (0x1e, 16) ∷ (0x11, 44) ∷ (0x2c, 17) ∷ (0x27, 50) ∷ (0x32, 51) ∷ []

abbrev pub uk_table : Table
uk_table = (0x2b, 86) ∷ []

abbrev pub be_table : Table
be_table = (0x10, 30) ∷ (0x1e, 16) ∷ (0x11, 44) ∷ (0x2c, 17) ∷ (0x27, 50) ∷ (0x32, 51) ∷ []

abbrev pub ch_table : Table
ch_table = (0x15, 44) ∷ (0x2c, 21) ∷ []

abbrev pub dvorak_table : Table
dvorak_table =
    (0x10, 40)
    ∷ (0x11, 51)
    ∷ (0x12, 52)
    ∷ (0x13, 25)
    ∷ (0x14, 21)
    ∷ (0x15, 33)
    ∷ (0x16, 34)
    ∷ (0x17, 46)
    ∷ (0x18, 19)
    ∷ (0x19, 38)
    ∷ (0x1e, 30)
    ∷ (0x1f, 24)
    ∷ (0x20, 18)
    ∷ (0x21, 22)
    ∷ (0x22, 23)
    ∷ (0x23, 32)
    ∷ (0x24, 35)
    ∷ (0x25, 20)
    ∷ (0x26, 49)
    ∷ (0x27, 31)
    ∷ (0x2c, 39)
    ∷ (0x2d, 16)
    ∷ (0x2e, 36)
    ∷ (0x2f, 37)
    ∷ (0x30, 45)
    ∷ (0x31, 48)
    ∷ (0x32, 50)
    ∷ (0x33, 17)
    ∷ (0x34, 47)
    ∷ (0x35, 44)
    ∷ []

abbrev pub colemak_table : Table
colemak_table =
    (0x12, 33)
    ∷ (0x13, 25)
    ∷ (0x14, 34)
    ∷ (0x15, 36)
    ∷ (0x16, 38)
    ∷ (0x17, 22)
    ∷ (0x18, 21)
    ∷ (0x19, 39)
    ∷ (0x1f, 19)
    ∷ (0x20, 31)
    ∷ (0x21, 20)
    ∷ (0x22, 32)
    ∷ (0x24, 49)
    ∷ (0x25, 18)
    ∷ (0x26, 23)
    ∷ (0x27, 24)
    ∷ (0x31, 37)
    ∷ []

abbrev pub layout_tables : List (Text × Table)
layout_tables =
    (codes "de", de_table)
    ∷ (codes "fr", fr_table)
    ∷ (codes "uk", uk_table)
    ∷ (codes "gb", uk_table)
    ∷ (codes "es", [])
    ∷ (codes "pt", [])
    ∷ (codes "it", [])
    ∷ (codes "be", be_table)
    ∷ (codes "ch", ch_table)
    ∷ (codes "dvorak", dvorak_table)
    ∷ (codes "colemak", colemak_table)
    ∷ []
