-- ===== src/Text/Euro/PartB.antt =====
-- impl/strenc.inc, the constructor EuroDeco::EuroDeco: the replacements from 0x0163 to 0x0453.
use fsview.Base.{ℕ, List, [], ◌∷◌}

abbrev pub replacements_b : List (ℕ × List ℕ)
replacements_b =
    (0x0163, 0x0074 ∷ 0x0327 ∷ [])
    ∷ (0x0164, 0x0054 ∷ 0x030C ∷ [])
    ∷ (0x0165, 0x0074 ∷ 0x030C ∷ [])
    ∷ (0x0168, 0x0055 ∷ 0x0303 ∷ [])
    ∷ (0x0169, 0x0075 ∷ 0x0303 ∷ [])
    ∷ (0x016A, 0x0055 ∷ 0x0304 ∷ [])
    ∷ (0x016B, 0x0075 ∷ 0x0304 ∷ [])
    ∷ (0x016C, 0x0055 ∷ 0x0306 ∷ [])
    ∷ (0x016D, 0x0075 ∷ 0x0306 ∷ [])
    ∷ (0x016E, 0x0055 ∷ 0x030A ∷ [])
    ∷ (0x016F, 0x0075 ∷ 0x030A ∷ [])
    ∷ (0x0170, 0x0055 ∷ 0x030B ∷ [])
    ∷ (0x0171, 0x0075 ∷ 0x030B ∷ [])
    ∷ (0x0172, 0x0055 ∷ 0x0328 ∷ [])
    ∷ (0x0173, 0x0075 ∷ 0x0328 ∷ [])
    ∷ (0x0174, 0x0057 ∷ 0x0302 ∷ [])
    ∷ (0x0175, 0x0077 ∷ 0x0302 ∷ [])
    ∷ (0x0176, 0x0059 ∷ 0x0302 ∷ [])
    ∷ (0x0177, 0x0079 ∷ 0x0302 ∷ [])
    ∷ (0x0178, 0x0059 ∷ 0x0308 ∷ [])
    ∷ (0x0179, 0x005A ∷ 0x0301 ∷ [])
    ∷ (0x017A, 0x007A ∷ 0x0301 ∷ [])
    ∷ (0x017B, 0x005A ∷ 0x0307 ∷ [])
    ∷ (0x017C, 0x007A ∷ 0x0307 ∷ [])
    ∷ (0x017D, 0x005A ∷ 0x030C ∷ [])
    ∷ (0x017E, 0x007A ∷ 0x030C ∷ [])
    ∷ (0x01A0, 0x004F ∷ 0x031B ∷ [])
    ∷ (0x01A1, 0x006F ∷ 0x031B ∷ [])
    ∷ (0x01AF, 0x0055 ∷ 0x031B ∷ [])
    ∷ (0x01B0, 0x0075 ∷ 0x031B ∷ [])
    ∷ (0x01CD, 0x0041 ∷ 0x030C ∷ [])
    ∷ (0x01CE, 0x0061 ∷ 0x030C ∷ [])
    ∷ (0x01CF, 0x0049 ∷ 0x030C ∷ [])
    ∷ (0x01D0, 0x0069 ∷ 0x030C ∷ [])
    ∷ (0x01D1, 0x004F ∷ 0x030C ∷ [])
    ∷ (0x01D2, 0x006F ∷ 0x030C ∷ [])
    ∷ (0x01D3, 0x0055 ∷ 0x030C ∷ [])
    ∷ (0x01D4, 0x0075 ∷ 0x030C ∷ [])
    ∷ (0x01D5, 0x0055 ∷ 0x0308 ∷ 0x0304 ∷ [])
    ∷ (0x01D6, 0x0075 ∷ 0x0308 ∷ 0x0304 ∷ [])
    ∷ (0x01D7, 0x0055 ∷ 0x0308 ∷ 0x0301 ∷ [])
    ∷ (0x01D8, 0x0075 ∷ 0x0308 ∷ 0x0301 ∷ [])
    ∷ (0x01D9, 0x0055 ∷ 0x0308 ∷ 0x030C ∷ [])
    ∷ (0x01DA, 0x0075 ∷ 0x0308 ∷ 0x030C ∷ [])
    ∷ (0x01DB, 0x0055 ∷ 0x0308 ∷ 0x0300 ∷ [])
    ∷ (0x01DC, 0x0075 ∷ 0x0308 ∷ 0x0300 ∷ [])
    ∷ (0x01DE, 0x0041 ∷ 0x0308 ∷ 0x0304 ∷ [])
    ∷ (0x01DF, 0x0061 ∷ 0x0308 ∷ 0x0304 ∷ [])
    ∷ (0x01E0, 0x0041 ∷ 0x0307 ∷ 0x0304 ∷ [])
    ∷ (0x01E1, 0x0061 ∷ 0x0307 ∷ 0x0304 ∷ [])
    ∷ (0x01E2, 0x00C6 ∷ 0x0304 ∷ [])
    ∷ (0x01E3, 0x00E6 ∷ 0x0304 ∷ [])
    ∷ (0x01E6, 0x0047 ∷ 0x030C ∷ [])
    ∷ (0x01E7, 0x0067 ∷ 0x030C ∷ [])
    ∷ (0x01E8, 0x004B ∷ 0x030C ∷ [])
    ∷ (0x01E9, 0x006B ∷ 0x030C ∷ [])
    ∷ (0x01EA, 0x004F ∷ 0x0328 ∷ [])
    ∷ (0x01EB, 0x006F ∷ 0x0328 ∷ [])
    ∷ (0x01EC, 0x004F ∷ 0x0328 ∷ 0x0304 ∷ [])
    ∷ (0x01ED, 0x006F ∷ 0x0328 ∷ 0x0304 ∷ [])
    ∷ (0x01EE, 0x01B7 ∷ 0x030C ∷ [])
    ∷ (0x01EF, 0x0292 ∷ 0x030C ∷ [])
    ∷ (0x01F0, 0x006A ∷ 0x030C ∷ [])
    ∷ (0x01F4, 0x0047 ∷ 0x0301 ∷ [])
    ∷ (0x01F5, 0x0067 ∷ 0x0301 ∷ [])
    ∷ (0x01FA, 0x0041 ∷ 0x030A ∷ 0x0301 ∷ [])
    ∷ (0x01FB, 0x0061 ∷ 0x030A ∷ 0x0301 ∷ [])
    ∷ (0x01FC, 0x00C6 ∷ 0x0301 ∷ [])
    ∷ (0x01FD, 0x00E6 ∷ 0x0301 ∷ [])
    ∷ (0x01FE, 0x00D8 ∷ 0x0301 ∷ [])
    ∷ (0x01FF, 0x00F8 ∷ 0x0301 ∷ [])
    ∷ (0x0200, 0x0041 ∷ 0x030F ∷ [])
    ∷ (0x0201, 0x0061 ∷ 0x030F ∷ [])
    ∷ (0x0202, 0x0041 ∷ 0x0311 ∷ [])
    ∷ (0x0203, 0x0061 ∷ 0x0311 ∷ [])
    ∷ (0x0204, 0x0045 ∷ 0x030F ∷ [])
    ∷ (0x0205, 0x0065 ∷ 0x030F ∷ [])
    ∷ (0x0206, 0x0045 ∷ 0x0311 ∷ [])
    ∷ (0x0207, 0x0065 ∷ 0x0311 ∷ [])
    ∷ (0x0208, 0x0049 ∷ 0x030F ∷ [])
    ∷ (0x0209, 0x0069 ∷ 0x030F ∷ [])
    ∷ (0x020A, 0x0049 ∷ 0x0311 ∷ [])
    ∷ (0x020B, 0x0069 ∷ 0x0311 ∷ [])
    ∷ (0x020C, 0x004F ∷ 0x030F ∷ [])
    ∷ (0x020D, 0x006F ∷ 0x030F ∷ [])
    ∷ (0x020E, 0x004F ∷ 0x0311 ∷ [])
    ∷ (0x020F, 0x006F ∷ 0x0311 ∷ [])
    ∷ (0x0210, 0x0052 ∷ 0x030F ∷ [])
    ∷ (0x0211, 0x0072 ∷ 0x030F ∷ [])
    ∷ (0x0212, 0x0052 ∷ 0x0311 ∷ [])
    ∷ (0x0213, 0x0072 ∷ 0x0311 ∷ [])
    ∷ (0x0214, 0x0055 ∷ 0x030F ∷ [])
    ∷ (0x0215, 0x0075 ∷ 0x030F ∷ [])
    ∷ (0x0216, 0x0055 ∷ 0x0311 ∷ [])
    ∷ (0x0217, 0x0075 ∷ 0x0311 ∷ [])
    ∷ (0x0310, 0x0306 ∷ 0x0307 ∷ [])
    ∷ (0x0340, 0x0300 ∷ [])
    ∷ (0x0341, 0x0301 ∷ [])
    ∷ (0x0343, 0x0313 ∷ [])
    ∷ (0x0344, 0x0308 ∷ 0x030D ∷ [])
    ∷ (0x0374, 0x02B9 ∷ [])
    ∷ (0x037E, 0x003B ∷ [])
    ∷ (0x0385, 0x00A8 ∷ 0x030D ∷ [])
    ∷ (0x0386, 0x0391 ∷ 0x030D ∷ [])
    ∷ (0x0387, 0x00B7 ∷ [])
    ∷ (0x0388, 0x0395 ∷ 0x030D ∷ [])
    ∷ (0x0389, 0x0397 ∷ 0x030D ∷ [])
    ∷ (0x038A, 0x0399 ∷ 0x030D ∷ [])
    ∷ (0x038C, 0x039F ∷ 0x030D ∷ [])
    ∷ (0x038E, 0x03A5 ∷ 0x030D ∷ [])
    ∷ (0x038F, 0x03A9 ∷ 0x030D ∷ [])
    ∷ (0x0390, 0x03B9 ∷ 0x0308 ∷ 0x030D ∷ [])
    ∷ (0x03AA, 0x0399 ∷ 0x0308 ∷ [])
    ∷ (0x03AB, 0x03A5 ∷ 0x0308 ∷ [])
    ∷ (0x03AC, 0x03B1 ∷ 0x030D ∷ [])
    ∷ (0x03AD, 0x03B5 ∷ 0x030D ∷ [])
    ∷ (0x03AE, 0x03B7 ∷ 0x030D ∷ [])
    ∷ (0x03AF, 0x03B9 ∷ 0x030D ∷ [])
    ∷ (0x03B0, 0x03C5 ∷ 0x0308 ∷ 0x030D ∷ [])
    ∷ (0x03CA, 0x03B9 ∷ 0x0308 ∷ [])
    ∷ (0x03CB, 0x03C5 ∷ 0x0308 ∷ [])
    ∷ (0x03CC, 0x03BF ∷ 0x030D ∷ [])
    ∷ (0x03CD, 0x03C5 ∷ 0x030D ∷ [])
    ∷ (0x03CE, 0x03C9 ∷ 0x030D ∷ [])
    ∷ (0x03D3, 0x03D2 ∷ 0x030D ∷ [])
    ∷ (0x03D4, 0x03D2 ∷ 0x0308 ∷ [])
    ∷ (0x0401, 0x0415 ∷ 0x0308 ∷ [])
    ∷ (0x0403, 0x0413 ∷ 0x0301 ∷ [])
    ∷ (0x0407, 0x0406 ∷ 0x0308 ∷ [])
    ∷ (0x040C, 0x041A ∷ 0x0301 ∷ [])
    ∷ (0x040E, 0x0423 ∷ 0x0306 ∷ [])
    ∷ (0x0419, 0x0418 ∷ 0x0306 ∷ [])
    ∷ (0x0439, 0x0438 ∷ 0x0306 ∷ [])
    ∷ (0x0451, 0x0435 ∷ 0x0308 ∷ [])
    ∷ (0x0453, 0x0433 ∷ 0x0301 ∷ [])
    ∷ []
