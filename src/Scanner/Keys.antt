-- ===== src/Scanner/Keys.antt =====
-- internal/scanner/keymap.go: the characters of the keys.
use raku_sika_hub.Prelude.{ℕ, List, [], ◌∷◌, ◌==◌, Bool, if◌then◌else◌}

unfoldable pub key_map : List (ℕ × ℕ)
key_map =
    (2, 0x31)
    ∷ (3, 0x32)
    ∷ (4, 0x33)
    ∷ (5, 0x34)
    ∷ (6, 0x35)
    ∷ (7, 0x36)
    ∷ (8, 0x37)
    ∷ (9, 0x38)
    ∷ (10, 0x39)
    ∷ (11, 0x30)
    ∷ (12, 0x2D)
    ∷ (13, 0x3D)
    ∷ (16, 0x71)
    ∷ (17, 0x77)
    ∷ (18, 0x65)
    ∷ (19, 0x72)
    ∷ (20, 0x74)
    ∷ (21, 0x79)
    ∷ (22, 0x75)
    ∷ (23, 0x69)
    ∷ (24, 0x6F)
    ∷ (25, 0x70)
    ∷ (26, 0x5B)
    ∷ (27, 0x5D)
    ∷ (30, 0x61)
    ∷ (31, 0x73)
    ∷ (32, 0x64)
    ∷ (33, 0x66)
    ∷ (34, 0x67)
    ∷ (35, 0x68)
    ∷ (36, 0x6A)
    ∷ (37, 0x6B)
    ∷ (38, 0x6C)
    ∷ (39, 0x3B)
    ∷ (40, 0x27)
    ∷ (41, 0x60)
    ∷ (43, 0x5C)
    ∷ (44, 0x7A)
    ∷ (45, 0x78)
    ∷ (46, 0x63)
    ∷ (47, 0x76)
    ∷ (48, 0x62)
    ∷ (49, 0x6E)
    ∷ (50, 0x6D)
    ∷ (51, 0x2C)
    ∷ (52, 0x2E)
    ∷ (53, 0x2F)
    ∷ (57, 0x20)
    ∷ []

unfoldable pub shift_key_map : List (ℕ × ℕ)
shift_key_map =
    (2, 0x21)
    ∷ (3, 0x40)
    ∷ (4, 0x23)
    ∷ (5, 0x24)
    ∷ (6, 0x25)
    ∷ (7, 0x5E)
    ∷ (8, 0x26)
    ∷ (9, 0x2A)
    ∷ (10, 0x28)
    ∷ (11, 0x29)
    ∷ (12, 0x5F)
    ∷ (13, 0x2B)
    ∷ (16, 0x51)
    ∷ (17, 0x57)
    ∷ (18, 0x45)
    ∷ (19, 0x52)
    ∷ (20, 0x54)
    ∷ (21, 0x59)
    ∷ (22, 0x55)
    ∷ (23, 0x49)
    ∷ (24, 0x4F)
    ∷ (25, 0x50)
    ∷ (26, 0x7B)
    ∷ (27, 0x7D)
    ∷ (30, 0x41)
    ∷ (31, 0x53)
    ∷ (32, 0x44)
    ∷ (33, 0x46)
    ∷ (34, 0x47)
    ∷ (35, 0x48)
    ∷ (36, 0x4A)
    ∷ (37, 0x4B)
    ∷ (38, 0x4C)
    ∷ (39, 0x3A)
    ∷ (40, 0x22)
    ∷ (41, 0x7E)
    ∷ (43, 0x7C)
    ∷ (44, 0x5A)
    ∷ (45, 0x58)
    ∷ (46, 0x43)
    ∷ (47, 0x56)
    ∷ (48, 0x42)
    ∷ (49, 0x4E)
    ∷ (50, 0x4D)
    ∷ (51, 0x3C)
    ∷ (52, 0x3E)
    ∷ (53, 0x3F)
    ∷ []

-- m[code], 0 for a code that is missing.
unfoldable pub char_at : List (ℕ × ℕ) → ℕ → ℕ
char_at [] code = 0
char_at ((k, c) ∷ rest) code = let more = char_at rest code in if k == code then c else more

unfoldable pub char_of : Bool → ℕ → ℕ
unfolding key_map shift_key_map char_at
char_of shifted code = if shifted then char_at shift_key_map code else char_at key_map code

abbrev pub ev_key : ℕ
ev_key = 1

abbrev pub key_enter : ℕ
key_enter = 28

abbrev pub key_l_shift : ℕ
key_l_shift = 42

abbrev pub key_r_shift : ℕ
key_r_shift = 54

abbrev pub key_pressed : ℕ
key_pressed = 1
