-- ===== src/Text/Euro/PartG.antt =====
-- impl/strenc.inc, the constructor EuroDeco::EuroDeco: the replacements from 0x1FCF to 0xFB4E.
use fsview.Base.{ℕ, List, [], ◌∷◌}

abbrev pub replacements_g : List (ℕ × List ℕ)
replacements_g =
    (0x1FCF, 0x1FBF ∷ 0x0342 ∷ [])
    ∷ (0x1FD0, 0x03B9 ∷ 0x0306 ∷ [])
    ∷ (0x1FD1, 0x03B9 ∷ 0x0304 ∷ [])
    ∷ (0x1FD2, 0x03B9 ∷ 0x0308 ∷ 0x0300 ∷ [])
    ∷ (0x1FD3, 0x03B9 ∷ 0x0308 ∷ 0x0301 ∷ [])
    ∷ (0x1FD6, 0x03B9 ∷ 0x0342 ∷ [])
    ∷ (0x1FD7, 0x03B9 ∷ 0x0308 ∷ 0x0342 ∷ [])
    ∷ (0x1FD8, 0x0399 ∷ 0x0306 ∷ [])
    ∷ (0x1FD9, 0x0399 ∷ 0x0304 ∷ [])
    ∷ (0x1FDA, 0x0399 ∷ 0x0300 ∷ [])
    ∷ (0x1FDB, 0x0399 ∷ 0x0301 ∷ [])
    ∷ (0x1FDD, 0x1FFE ∷ 0x0300 ∷ [])
    ∷ (0x1FDE, 0x1FFE ∷ 0x0301 ∷ [])
    ∷ (0x1FDF, 0x1FFE ∷ 0x0342 ∷ [])
    ∷ (0x1FE0, 0x03C5 ∷ 0x0306 ∷ [])
    ∷ (0x1FE1, 0x03C5 ∷ 0x0304 ∷ [])
    ∷ (0x1FE2, 0x03C5 ∷ 0x0308 ∷ 0x0300 ∷ [])
    ∷ (0x1FE3, 0x03C5 ∷ 0x0308 ∷ 0x0301 ∷ [])
    ∷ (0x1FE4, 0x03C1 ∷ 0x0313 ∷ [])
    ∷ (0x1FE5, 0x03C1 ∷ 0x0314 ∷ [])
    ∷ (0x1FE6, 0x03C5 ∷ 0x0342 ∷ [])
    ∷ (0x1FE7, 0x03C5 ∷ 0x0308 ∷ 0x0342 ∷ [])
    ∷ (0x1FE8, 0x03A5 ∷ 0x0306 ∷ [])
    ∷ (0x1FE9, 0x03A5 ∷ 0x0304 ∷ [])
    ∷ (0x1FEA, 0x03A5 ∷ 0x0300 ∷ [])
    ∷ (0x1FEB, 0x03A5 ∷ 0x0301 ∷ [])
    ∷ (0x1FEC, 0x03A1 ∷ 0x0314 ∷ [])
    ∷ (0x1FED, 0x00A8 ∷ 0x0300 ∷ [])
    ∷ (0x1FEE, 0x00A8 ∷ 0x0301 ∷ [])
    ∷ (0x1FEF, 0x0060 ∷ [])
    ∷ (0x1FF2, 0x03C9 ∷ 0x0345 ∷ 0x0300 ∷ [])
    ∷ (0x1FF3, 0x03C9 ∷ 0x0345 ∷ [])
    ∷ (0x1FF4, 0x03BF ∷ 0x0345 ∷ 0x0301 ∷ [])
    ∷ (0x1FF6, 0x03C9 ∷ 0x0342 ∷ [])
    ∷ (0x1FF7, 0x03C9 ∷ 0x0345 ∷ 0x0342 ∷ [])
    ∷ (0x1FF8, 0x039F ∷ 0x0300 ∷ [])
    ∷ (0x1FF9, 0x039F ∷ 0x0301 ∷ [])
    ∷ (0x1FFA, 0x03A9 ∷ 0x0300 ∷ [])
    ∷ (0x1FFB, 0x03A9 ∷ 0x0301 ∷ [])
    ∷ (0x1FFC, 0x03A9 ∷ 0x0345 ∷ [])
    ∷ (0x1FFD, 0x00B4 ∷ [])
    ∷ (0x304C, 0x304B ∷ 0x3099 ∷ [])
    ∷ (0x304E, 0x304D ∷ 0x3099 ∷ [])
    ∷ (0x3050, 0x304F ∷ 0x3099 ∷ [])
    ∷ (0x3052, 0x3051 ∷ 0x3099 ∷ [])
    ∷ (0x3054, 0x3053 ∷ 0x3099 ∷ [])
    ∷ (0x3056, 0x3055 ∷ 0x3099 ∷ [])
    ∷ (0x3058, 0x3057 ∷ 0x3099 ∷ [])
    ∷ (0x305A, 0x3059 ∷ 0x3099 ∷ [])
    ∷ (0x305C, 0x305B ∷ 0x3099 ∷ [])
    ∷ (0x305E, 0x305D ∷ 0x3099 ∷ [])
    ∷ (0x3060, 0x305F ∷ 0x3099 ∷ [])
    ∷ (0x3062, 0x3061 ∷ 0x3099 ∷ [])
    ∷ (0x3065, 0x3064 ∷ 0x3099 ∷ [])
    ∷ (0x3067, 0x3066 ∷ 0x3099 ∷ [])
    ∷ (0x3069, 0x3068 ∷ 0x3099 ∷ [])
    ∷ (0x3070, 0x306F ∷ 0x3099 ∷ [])
    ∷ (0x3071, 0x306F ∷ 0x309A ∷ [])
    ∷ (0x3073, 0x3072 ∷ 0x3099 ∷ [])
    ∷ (0x3074, 0x3072 ∷ 0x309A ∷ [])
    ∷ (0x3076, 0x3075 ∷ 0x3099 ∷ [])
    ∷ (0x3077, 0x3075 ∷ 0x309A ∷ [])
    ∷ (0x3079, 0x3078 ∷ 0x3099 ∷ [])
    ∷ (0x307A, 0x3078 ∷ 0x309A ∷ [])
    ∷ (0x307C, 0x307B ∷ 0x3099 ∷ [])
    ∷ (0x307D, 0x307B ∷ 0x309A ∷ [])
    ∷ (0x3094, 0x3046 ∷ 0x3099 ∷ [])
    ∷ (0x309E, 0x309D ∷ 0x3099 ∷ [])
    ∷ (0x30AC, 0x30AB ∷ 0x3099 ∷ [])
    ∷ (0x30AE, 0x30AD ∷ 0x3099 ∷ [])
    ∷ (0x30B0, 0x30AF ∷ 0x3099 ∷ [])
    ∷ (0x30B2, 0x30B1 ∷ 0x3099 ∷ [])
    ∷ (0x30B4, 0x30B3 ∷ 0x3099 ∷ [])
    ∷ (0x30B6, 0x30B5 ∷ 0x3099 ∷ [])
    ∷ (0x30B8, 0x30B7 ∷ 0x3099 ∷ [])
    ∷ (0x30BA, 0x30B9 ∷ 0x3099 ∷ [])
    ∷ (0x30BC, 0x30BB ∷ 0x3099 ∷ [])
    ∷ (0x30BE, 0x30BD ∷ 0x3099 ∷ [])
    ∷ (0x30C0, 0x30BF ∷ 0x3099 ∷ [])
    ∷ (0x30C2, 0x30C1 ∷ 0x3099 ∷ [])
    ∷ (0x30C5, 0x30C4 ∷ 0x3099 ∷ [])
    ∷ (0x30C7, 0x30C6 ∷ 0x3099 ∷ [])
    ∷ (0x30C9, 0x30C8 ∷ 0x3099 ∷ [])
    ∷ (0x30D0, 0x30CF ∷ 0x3099 ∷ [])
    ∷ (0x30D1, 0x30CF ∷ 0x309A ∷ [])
    ∷ (0x30D3, 0x30D2 ∷ 0x3099 ∷ [])
    ∷ (0x30D4, 0x30D2 ∷ 0x309A ∷ [])
    ∷ (0x30D6, 0x30D5 ∷ 0x3099 ∷ [])
    ∷ (0x30D7, 0x30D5 ∷ 0x309A ∷ [])
    ∷ (0x30D9, 0x30D8 ∷ 0x3099 ∷ [])
    ∷ (0x30DA, 0x30D8 ∷ 0x309A ∷ [])
    ∷ (0x30DC, 0x30DB ∷ 0x3099 ∷ [])
    ∷ (0x30DD, 0x30DB ∷ 0x309A ∷ [])
    ∷ (0x30F4, 0x30A6 ∷ 0x3099 ∷ [])
    ∷ (0x30F7, 0x30EF ∷ 0x3099 ∷ [])
    ∷ (0x30F8, 0x30F0 ∷ 0x3099 ∷ [])
    ∷ (0x30F9, 0x30F1 ∷ 0x3099 ∷ [])
    ∷ (0x30FA, 0x30F2 ∷ 0x3099 ∷ [])
    ∷ (0x30FE, 0x30FD ∷ 0x3099 ∷ [])
    ∷ (0xFB1F, 0x05F2 ∷ 0x05B7 ∷ [])
    ∷ (0xFB2A, 0x05E9 ∷ 0x05C1 ∷ [])
    ∷ (0xFB2B, 0x05E9 ∷ 0x05C2 ∷ [])
    ∷ (0xFB2C, 0x05E9 ∷ 0x05BC ∷ 0x05C1 ∷ [])
    ∷ (0xFB2D, 0x05E9 ∷ 0x05BC ∷ 0x05C2 ∷ [])
    ∷ (0xFB2E, 0x05D0 ∷ 0x05B7 ∷ [])
    ∷ (0xFB2F, 0x05D0 ∷ 0x05B8 ∷ [])
    ∷ (0xFB30, 0x05D0 ∷ 0x05BC ∷ [])
    ∷ (0xFB31, 0x05D1 ∷ 0x05BC ∷ [])
    ∷ (0xFB32, 0x05D2 ∷ 0x05BC ∷ [])
    ∷ (0xFB33, 0x05D3 ∷ 0x05BC ∷ [])
    ∷ (0xFB34, 0x05D4 ∷ 0x05BC ∷ [])
    ∷ (0xFB35, 0x05D5 ∷ 0x05BC ∷ [])
    ∷ (0xFB36, 0x05D6 ∷ 0x05BC ∷ [])
    ∷ (0xFB38, 0x05D8 ∷ 0x05BC ∷ [])
    ∷ (0xFB39, 0x05D9 ∷ 0x05BC ∷ [])
    ∷ (0xFB3A, 0x05DA ∷ 0x05BC ∷ [])
    ∷ (0xFB3B, 0x05DB ∷ 0x05BC ∷ [])
    ∷ (0xFB3C, 0x05DC ∷ 0x05BC ∷ [])
    ∷ (0xFB3E, 0x05DE ∷ 0x05BC ∷ [])
    ∷ (0xFB40, 0x05E0 ∷ 0x05BC ∷ [])
    ∷ (0xFB41, 0x05E1 ∷ 0x05BC ∷ [])
    ∷ (0xFB43, 0x05E3 ∷ 0x05BC ∷ [])
    ∷ (0xFB44, 0x05E4 ∷ 0x05BC ∷ [])
    ∷ (0xFB46, 0x05E6 ∷ 0x05BC ∷ [])
    ∷ (0xFB47, 0x05E7 ∷ 0x05BC ∷ [])
    ∷ (0xFB48, 0x05E8 ∷ 0x05BC ∷ [])
    ∷ (0xFB49, 0x05E9 ∷ 0x05BC ∷ [])
    ∷ (0xFB4A, 0x05EA ∷ 0x05BC ∷ [])
    ∷ (0xFB4B, 0x05D5 ∷ 0x05B9 ∷ [])
    ∷ (0xFB4C, 0x05D1 ∷ 0x05BF ∷ [])
    ∷ (0xFB4D, 0x05DB ∷ 0x05BF ∷ [])
    ∷ (0xFB4E, 0x05E4 ∷ 0x05BF ∷ [])
    ∷ []
