-- ===== src/Text/Euro/PartA.antt =====
-- impl/strenc.inc, the constructor EuroDeco::EuroDeco: the replacements from 0x00C0 to 0x0162.
use fsview.Base.{ℕ, List, [], ◌∷◌}

abbrev pub replacements_a : List (ℕ × List ℕ)
replacements_a =
    (0x00C0, 0x0041 ∷ 0x0300 ∷ [])
    ∷ (0x00C1, 0x0041 ∷ 0x0301 ∷ [])
    ∷ (0x00C2, 0x0041 ∷ 0x0302 ∷ [])
    ∷ (0x00C3, 0x0041 ∷ 0x0303 ∷ [])
    ∷ (0x00C4, 0x0041 ∷ 0x0308 ∷ [])
    ∷ (0x00C5, 0x0041 ∷ 0x030A ∷ [])
    ∷ (0x00C7, 0x0043 ∷ 0x0327 ∷ [])
    ∷ (0x00C8, 0x0045 ∷ 0x0300 ∷ [])
    ∷ (0x00C9, 0x0045 ∷ 0x0301 ∷ [])
    ∷ (0x00CA, 0x0045 ∷ 0x0302 ∷ [])
    ∷ (0x00CB, 0x0045 ∷ 0x0308 ∷ [])
    ∷ (0x00CC, 0x0049 ∷ 0x0300 ∷ [])
    ∷ (0x00CD, 0x0049 ∷ 0x0301 ∷ [])
    ∷ (0x00CE, 0x0049 ∷ 0x0302 ∷ [])
    ∷ (0x00CF, 0x0049 ∷ 0x0308 ∷ [])
    ∷ (0x00D1, 0x004E ∷ 0x0303 ∷ [])
    ∷ (0x00D2, 0x004F ∷ 0x0300 ∷ [])
    ∷ (0x00D3, 0x004F ∷ 0x0301 ∷ [])
    ∷ (0x00D4, 0x004F ∷ 0x0302 ∷ [])
    ∷ (0x00D5, 0x004F ∷ 0x0303 ∷ [])
    ∷ (0x00D6, 0x004F ∷ 0x0308 ∷ [])
    ∷ (0x00D9, 0x0055 ∷ 0x0300 ∷ [])
    ∷ (0x00DA, 0x0055 ∷ 0x0301 ∷ [])
    ∷ (0x00DB, 0x0055 ∷ 0x0302 ∷ [])
    ∷ (0x00DC, 0x0055 ∷ 0x0308 ∷ [])
    ∷ (0x00DD, 0x0059 ∷ 0x0301 ∷ [])
    ∷ (0x00E0, 0x0061 ∷ 0x0300 ∷ [])
    ∷ (0x00E1, 0x0061 ∷ 0x0301 ∷ [])
    ∷ (0x00E2, 0x0061 ∷ 0x0302 ∷ [])
    ∷ (0x00E3, 0x0061 ∷ 0x0303 ∷ [])
    ∷ (0x00E4, 0x0061 ∷ 0x0308 ∷ [])
    ∷ (0x00E5, 0x0061 ∷ 0x030A ∷ [])
    ∷ (0x00E7, 0x0063 ∷ 0x0327 ∷ [])
    ∷ (0x00E8, 0x0065 ∷ 0x0300 ∷ [])
    ∷ (0x00E9, 0x0065 ∷ 0x0301 ∷ [])
    ∷ (0x00EA, 0x0065 ∷ 0x0302 ∷ [])
    ∷ (0x00EB, 0x0065 ∷ 0x0308 ∷ [])
    ∷ (0x00EC, 0x0069 ∷ 0x0300 ∷ [])
    ∷ (0x00ED, 0x0069 ∷ 0x0301 ∷ [])
    ∷ (0x00EE, 0x0069 ∷ 0x0302 ∷ [])
    ∷ (0x00EF, 0x0069 ∷ 0x0308 ∷ [])
    ∷ (0x00F1, 0x006E ∷ 0x0303 ∷ [])
    ∷ (0x00F2, 0x006F ∷ 0x0300 ∷ [])
    ∷ (0x00F3, 0x006F ∷ 0x0301 ∷ [])
    ∷ (0x00F4, 0x006F ∷ 0x0302 ∷ [])
    ∷ (0x00F5, 0x006F ∷ 0x0303 ∷ [])
    ∷ (0x00F6, 0x006F ∷ 0x0308 ∷ [])
    ∷ (0x00F9, 0x0075 ∷ 0x0300 ∷ [])
    ∷ (0x00FA, 0x0075 ∷ 0x0301 ∷ [])
    ∷ (0x00FB, 0x0075 ∷ 0x0302 ∷ [])
    ∷ (0x00FC, 0x0075 ∷ 0x0308 ∷ [])
    ∷ (0x00FD, 0x0079 ∷ 0x0301 ∷ [])
    ∷ (0x00FF, 0x0079 ∷ 0x0308 ∷ [])
    ∷ (0x0100, 0x0041 ∷ 0x0304 ∷ [])
    ∷ (0x0101, 0x0061 ∷ 0x0304 ∷ [])
    ∷ (0x0102, 0x0041 ∷ 0x0306 ∷ [])
    ∷ (0x0103, 0x0061 ∷ 0x0306 ∷ [])
    ∷ (0x0104, 0x0041 ∷ 0x0328 ∷ [])
    ∷ (0x0105, 0x0061 ∷ 0x0328 ∷ [])
    ∷ (0x0106, 0x0043 ∷ 0x0301 ∷ [])
    ∷ (0x0107, 0x0063 ∷ 0x0301 ∷ [])
    ∷ (0x0108, 0x0043 ∷ 0x0302 ∷ [])
    ∷ (0x0109, 0x0063 ∷ 0x0302 ∷ [])
    ∷ (0x010A, 0x0043 ∷ 0x0307 ∷ [])
    ∷ (0x010B, 0x0063 ∷ 0x0307 ∷ [])
    ∷ (0x010C, 0x0043 ∷ 0x030C ∷ [])
    ∷ (0x010D, 0x0063 ∷ 0x030C ∷ [])
    ∷ (0x010E, 0x0044 ∷ 0x030C ∷ [])
    ∷ (0x010F, 0x0064 ∷ 0x030C ∷ [])
    ∷ (0x0112, 0x0045 ∷ 0x0304 ∷ [])
    ∷ (0x0113, 0x0065 ∷ 0x0304 ∷ [])
    ∷ (0x0114, 0x0045 ∷ 0x0306 ∷ [])
    ∷ (0x0115, 0x0065 ∷ 0x0306 ∷ [])
    ∷ (0x0116, 0x0045 ∷ 0x0307 ∷ [])
    ∷ (0x0117, 0x0065 ∷ 0x0307 ∷ [])
    ∷ (0x0118, 0x0045 ∷ 0x0328 ∷ [])
    ∷ (0x0119, 0x0065 ∷ 0x0328 ∷ [])
    ∷ (0x011A, 0x0045 ∷ 0x030C ∷ [])
    ∷ (0x011B, 0x0065 ∷ 0x030C ∷ [])
    ∷ (0x011C, 0x0047 ∷ 0x0302 ∷ [])
    ∷ (0x011D, 0x0067 ∷ 0x0302 ∷ [])
    ∷ (0x011E, 0x0047 ∷ 0x0306 ∷ [])
    ∷ (0x011F, 0x0067 ∷ 0x0306 ∷ [])
    ∷ (0x0120, 0x0047 ∷ 0x0307 ∷ [])
    ∷ (0x0121, 0x0067 ∷ 0x0307 ∷ [])
    ∷ (0x0122, 0x0047 ∷ 0x0327 ∷ [])
    ∷ (0x0123, 0x0067 ∷ 0x0327 ∷ [])
    ∷ (0x0124, 0x0048 ∷ 0x0302 ∷ [])
    ∷ (0x0125, 0x0068 ∷ 0x0302 ∷ [])
    ∷ (0x0128, 0x0049 ∷ 0x0303 ∷ [])
    ∷ (0x0129, 0x0069 ∷ 0x0303 ∷ [])
    ∷ (0x012A, 0x0049 ∷ 0x0304 ∷ [])
    ∷ (0x012B, 0x0069 ∷ 0x0304 ∷ [])
    ∷ (0x012C, 0x0049 ∷ 0x0306 ∷ [])
    ∷ (0x012D, 0x0069 ∷ 0x0306 ∷ [])
    ∷ (0x012E, 0x0049 ∷ 0x0328 ∷ [])
    ∷ (0x012F, 0x0069 ∷ 0x0328 ∷ [])
    ∷ (0x0130, 0x0049 ∷ 0x0307 ∷ [])
    ∷ (0x0134, 0x004A ∷ 0x0302 ∷ [])
    ∷ (0x0135, 0x006A ∷ 0x0302 ∷ [])
    ∷ (0x0136, 0x004B ∷ 0x0327 ∷ [])
    ∷ (0x0137, 0x006B ∷ 0x0327 ∷ [])
    ∷ (0x0139, 0x004C ∷ 0x0301 ∷ [])
    ∷ (0x013A, 0x006C ∷ 0x0301 ∷ [])
    ∷ (0x013B, 0x004C ∷ 0x0327 ∷ [])
    ∷ (0x013C, 0x006C ∷ 0x0327 ∷ [])
    ∷ (0x013D, 0x004C ∷ 0x030C ∷ [])
    ∷ (0x013E, 0x006C ∷ 0x030C ∷ [])
    ∷ (0x0143, 0x004E ∷ 0x0301 ∷ [])
    ∷ (0x0144, 0x006E ∷ 0x0301 ∷ [])
    ∷ (0x0145, 0x004E ∷ 0x0327 ∷ [])
    ∷ (0x0146, 0x006E ∷ 0x0327 ∷ [])
    ∷ (0x0147, 0x004E ∷ 0x030C ∷ [])
    ∷ (0x0148, 0x006E ∷ 0x030C ∷ [])
    ∷ (0x014C, 0x004F ∷ 0x0304 ∷ [])
    ∷ (0x014D, 0x006F ∷ 0x0304 ∷ [])
    ∷ (0x014E, 0x004F ∷ 0x0306 ∷ [])
    ∷ (0x014F, 0x006F ∷ 0x0306 ∷ [])
    ∷ (0x0150, 0x004F ∷ 0x030B ∷ [])
    ∷ (0x0151, 0x006F ∷ 0x030B ∷ [])
    ∷ (0x0154, 0x0052 ∷ 0x0301 ∷ [])
    ∷ (0x0155, 0x0072 ∷ 0x0301 ∷ [])
    ∷ (0x0156, 0x0052 ∷ 0x0327 ∷ [])
    ∷ (0x0157, 0x0072 ∷ 0x0327 ∷ [])
    ∷ (0x0158, 0x0052 ∷ 0x030C ∷ [])
    ∷ (0x0159, 0x0072 ∷ 0x030C ∷ [])
    ∷ (0x015A, 0x0053 ∷ 0x0301 ∷ [])
    ∷ (0x015B, 0x0073 ∷ 0x0301 ∷ [])
    ∷ (0x015C, 0x0053 ∷ 0x0302 ∷ [])
    ∷ (0x015D, 0x0073 ∷ 0x0302 ∷ [])
    ∷ (0x015E, 0x0053 ∷ 0x0327 ∷ [])
    ∷ (0x015F, 0x0073 ∷ 0x0327 ∷ [])
    ∷ (0x0160, 0x0053 ∷ 0x030C ∷ [])
    ∷ (0x0161, 0x0073 ∷ 0x030C ∷ [])
    ∷ (0x0162, 0x0054 ∷ 0x0327 ∷ [])
    ∷ []
