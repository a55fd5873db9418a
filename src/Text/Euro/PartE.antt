-- ===== src/Text/Euro/PartE.antt =====
-- impl/strenc.inc, the constructor EuroDeco::EuroDeco: the replacements from 0x1EA8 to 0x1F38.
use fsview.Base.{ℕ, List, [], ◌∷◌}

abbrev pub replacements_e : List (ℕ × List ℕ)
replacements_e =
    (0x1EA8, 0x0041 ∷ 0x0302 ∷ 0x0309 ∷ [])
    ∷ (0x1EA9, 0x0061 ∷ 0x0302 ∷ 0x0309 ∷ [])
    ∷ (0x1EAA, 0x0041 ∷ 0x0302 ∷ 0x0303 ∷ [])
    ∷ (0x1EAB, 0x0061 ∷ 0x0302 ∷ 0x0303 ∷ [])
    ∷ (0x1EAC, 0x0041 ∷ 0x0323 ∷ 0x0302 ∷ [])
    ∷ (0x1EAD, 0x0061 ∷ 0x0323 ∷ 0x0302 ∷ [])
    ∷ (0x1EAE, 0x0041 ∷ 0x0306 ∷ 0x0301 ∷ [])
    ∷ (0x1EAF, 0x0061 ∷ 0x0306 ∷ 0x0301 ∷ [])
    ∷ (0x1EB0, 0x0041 ∷ 0x0306 ∷ 0x0300 ∷ [])
    ∷ (0x1EB1, 0x0061 ∷ 0x0306 ∷ 0x0300 ∷ [])
    ∷ (0x1EB2, 0x0041 ∷ 0x0306 ∷ 0x0309 ∷ [])
    ∷ (0x1EB3, 0x0061 ∷ 0x0306 ∷ 0x0309 ∷ [])
    ∷ (0x1EB4, 0x0041 ∷ 0x0306 ∷ 0x0303 ∷ [])
    ∷ (0x1EB5, 0x0061 ∷ 0x0306 ∷ 0x0303 ∷ [])
    ∷ (0x1EB6, 0x0041 ∷ 0x0323 ∷ 0x0306 ∷ [])
    ∷ (0x1EB7, 0x0061 ∷ 0x0323 ∷ 0x0306 ∷ [])
    ∷ (0x1EB8, 0x0045 ∷ 0x0323 ∷ [])
    ∷ (0x1EB9, 0x0065 ∷ 0x0323 ∷ [])
    ∷ (0x1EBA, 0x0045 ∷ 0x0309 ∷ [])
    ∷ (0x1EBB, 0x0065 ∷ 0x0309 ∷ [])
    ∷ (0x1EBC, 0x0045 ∷ 0x0303 ∷ [])
    ∷ (0x1EBD, 0x0065 ∷ 0x0303 ∷ [])
    ∷ (0x1EBE, 0x0045 ∷ 0x0302 ∷ 0x0301 ∷ [])
    ∷ (0x1EBF, 0x0065 ∷ 0x0302 ∷ 0x0301 ∷ [])
    ∷ (0x1EC0, 0x0045 ∷ 0x0302 ∷ 0x0300 ∷ [])
    ∷ (0x1EC1, 0x0065 ∷ 0x0302 ∷ 0x0300 ∷ [])
    ∷ (0x1EC2, 0x0045 ∷ 0x0302 ∷ 0x0309 ∷ [])
    ∷ (0x1EC3, 0x0065 ∷ 0x0302 ∷ 0x0309 ∷ [])
    ∷ (0x1EC4, 0x0045 ∷ 0x0302 ∷ 0x0303 ∷ [])
    ∷ (0x1EC5, 0x0065 ∷ 0x0302 ∷ 0x0303 ∷ [])
    ∷ (0x1EC6, 0x0045 ∷ 0x0323 ∷ 0x0302 ∷ [])
    ∷ (0x1EC7, 0x0065 ∷ 0x0323 ∷ 0x0302 ∷ [])
    ∷ (0x1EC8, 0x0049 ∷ 0x0309 ∷ [])
    ∷ (0x1EC9, 0x0069 ∷ 0x0309 ∷ [])
    ∷ (0x1ECA, 0x0049 ∷ 0x0323 ∷ [])
    ∷ (0x1ECB, 0x0069 ∷ 0x0323 ∷ [])
    ∷ (0x1ECC, 0x004F ∷ 0x0323 ∷ [])
    ∷ (0x1ECD, 0x006F ∷ 0x0323 ∷ [])
    ∷ (0x1ECE, 0x004F ∷ 0x0309 ∷ [])
    ∷ (0x1ECF, 0x006F ∷ 0x0309 ∷ [])
    ∷ (0x1ED0, 0x004F ∷ 0x0302 ∷ 0x0301 ∷ [])
    ∷ (0x1ED1, 0x006F ∷ 0x0302 ∷ 0x0301 ∷ [])
    ∷ (0x1ED2, 0x004F ∷ 0x0302 ∷ 0x0300 ∷ [])
    ∷ (0x1ED3, 0x006F ∷ 0x0302 ∷ 0x0300 ∷ [])
    ∷ (0x1ED4, 0x004F ∷ 0x0302 ∷ 0x0309 ∷ [])
    ∷ (0x1ED5, 0x006F ∷ 0x0302 ∷ 0x0309 ∷ [])
    ∷ (0x1ED6, 0x004F ∷ 0x0302 ∷ 0x0303 ∷ [])
    ∷ (0x1ED7, 0x006F ∷ 0x0302 ∷ 0x0303 ∷ [])
    ∷ (0x1ED8, 0x004F ∷ 0x0323 ∷ 0x0302 ∷ [])
    ∷ (0x1ED9, 0x006F ∷ 0x0323 ∷ 0x0302 ∷ [])
    ∷ (0x1EDA, 0x004F ∷ 0x031B ∷ 0x0301 ∷ [])
    ∷ (0x1EDB, 0x006F ∷ 0x031B ∷ 0x0301 ∷ [])
    ∷ (0x1EDC, 0x004F ∷ 0x031B ∷ 0x0300 ∷ [])
    ∷ (0x1EDD, 0x006F ∷ 0x031B ∷ 0x0300 ∷ [])
    ∷ (0x1EDE, 0x004F ∷ 0x031B ∷ 0x0309 ∷ [])
    ∷ (0x1EDF, 0x006F ∷ 0x031B ∷ 0x0309 ∷ [])
    ∷ (0x1EE0, 0x004F ∷ 0x031B ∷ 0x0303 ∷ [])
    ∷ (0x1EE1, 0x006F ∷ 0x031B ∷ 0x0303 ∷ [])
    ∷ (0x1EE2, 0x004F ∷ 0x031B ∷ 0x0323 ∷ [])
    ∷ (0x1EE3, 0x006F ∷ 0x031B ∷ 0x0323 ∷ [])
    ∷ (0x1EE4, 0x0055 ∷ 0x0323 ∷ [])
    ∷ (0x1EE5, 0x0075 ∷ 0x0323 ∷ [])
    ∷ (0x1EE6, 0x0055 ∷ 0x0309 ∷ [])
    ∷ (0x1EE7, 0x0075 ∷ 0x0309 ∷ [])
    ∷ (0x1EE8, 0x0055 ∷ 0x031B ∷ 0x0301 ∷ [])
    ∷ (0x1EE9, 0x0075 ∷ 0x031B ∷ 0x0301 ∷ [])
    ∷ (0x1EEA, 0x0055 ∷ 0x031B ∷ 0x0300 ∷ [])
    ∷ (0x1EEB, 0x0075 ∷ 0x031B ∷ 0x0300 ∷ [])
    ∷ (0x1EEC, 0x0055 ∷ 0x031B ∷ 0x0309 ∷ [])
    ∷ (0x1EED, 0x0075 ∷ 0x031B ∷ 0x0309 ∷ [])
    ∷ (0x1EEE, 0x0055 ∷ 0x031B ∷ 0x0303 ∷ [])
    ∷ (0x1EEF, 0x0075 ∷ 0x031B ∷ 0x0303 ∷ [])
    ∷ (0x1EF0, 0x0055 ∷ 0x031B ∷ 0x0323 ∷ [])
    ∷ (0x1EF1, 0x0075 ∷ 0x031B ∷ 0x0323 ∷ [])
    ∷ (0x1EF2, 0x0059 ∷ 0x0300 ∷ [])
    ∷ (0x1EF3, 0x0079 ∷ 0x0300 ∷ [])
    ∷ (0x1EF4, 0x0059 ∷ 0x0323 ∷ [])
    ∷ (0x1EF5, 0x0079 ∷ 0x0323 ∷ [])
    ∷ (0x1EF6, 0x0059 ∷ 0x0309 ∷ [])
    ∷ (0x1EF7, 0x0079 ∷ 0x0309 ∷ [])
    ∷ (0x1EF8, 0x0059 ∷ 0x0303 ∷ [])
    ∷ (0x1EF9, 0x0079 ∷ 0x0303 ∷ [])
    ∷ (0x1F00, 0x03B1 ∷ 0x0313 ∷ [])
    ∷ (0x1F01, 0x03B1 ∷ 0x0314 ∷ [])
    ∷ (0x1F02, 0x03B1 ∷ 0x0313 ∷ 0x0300 ∷ [])
    ∷ (0x1F03, 0x03B1 ∷ 0x0314 ∷ 0x0300 ∷ [])
    ∷ (0x1F04, 0x03B1 ∷ 0x0313 ∷ 0x0301 ∷ [])
    ∷ (0x1F05, 0x03B1 ∷ 0x0314 ∷ 0x0301 ∷ [])
    ∷ (0x1F06, 0x03B1 ∷ 0x0313 ∷ 0x0342 ∷ [])
    ∷ (0x1F07, 0x03B1 ∷ 0x0314 ∷ 0x0342 ∷ [])
    ∷ (0x1F08, 0x0391 ∷ 0x0313 ∷ [])
    ∷ (0x1F09, 0x0391 ∷ 0x0314 ∷ [])
    ∷ (0x1F0A, 0x0391 ∷ 0x0313 ∷ 0x0300 ∷ [])
    ∷ (0x1F0B, 0x0391 ∷ 0x0314 ∷ 0x0300 ∷ [])
    ∷ (0x1F0C, 0x0391 ∷ 0x0313 ∷ 0x0301 ∷ [])
    ∷ (0x1F0D, 0x0391 ∷ 0x0314 ∷ 0x0301 ∷ [])
    ∷ (0x1F0E, 0x0391 ∷ 0x0313 ∷ 0x0342 ∷ [])
    ∷ (0x1F0F, 0x0391 ∷ 0x0314 ∷ 0x0342 ∷ [])
    ∷ (0x1F10, 0x03B5 ∷ 0x0313 ∷ [])
    ∷ (0x1F11, 0x03B5 ∷ 0x0314 ∷ [])
    ∷ (0x1F12, 0x03B5 ∷ 0x0313 ∷ 0x0300 ∷ [])
    ∷ (0x1F13, 0x03B5 ∷ 0x0314 ∷ 0x0300 ∷ [])
    ∷ (0x1F14, 0x03B5 ∷ 0x0313 ∷ 0x0301 ∷ [])
    ∷ (0x1F15, 0x03B5 ∷ 0x0314 ∷ 0x0301 ∷ [])
    ∷ (0x1F18, 0x0395 ∷ 0x0313 ∷ [])
    ∷ (0x1F19, 0x0395 ∷ 0x0314 ∷ [])
    ∷ (0x1F1A, 0x0395 ∷ 0x0313 ∷ 0x0300 ∷ [])
    ∷ (0x1F1B, 0x0395 ∷ 0x0314 ∷ 0x0300 ∷ [])
    ∷ (0x1F1C, 0x0395 ∷ 0x0313 ∷ 0x0301 ∷ [])
    ∷ (0x1F1D, 0x0395 ∷ 0x0314 ∷ 0x0301 ∷ [])
    ∷ (0x1F20, 0x03B7 ∷ 0x0313 ∷ [])
    ∷ (0x1F21, 0x03B7 ∷ 0x0314 ∷ [])
    ∷ (0x1F22, 0x03B7 ∷ 0x0313 ∷ 0x0300 ∷ [])
    ∷ (0x1F23, 0x03B7 ∷ 0x0314 ∷ 0x0300 ∷ [])
    ∷ (0x1F24, 0x03B7 ∷ 0x0313 ∷ 0x0301 ∷ [])
    ∷ (0x1F25, 0x03B7 ∷ 0x0314 ∷ 0x0301 ∷ [])
    ∷ (0x1F26, 0x03B7 ∷ 0x0313 ∷ 0x0342 ∷ [])
    ∷ (0x1F27, 0x03B7 ∷ 0x0314 ∷ 0x0342 ∷ [])
    ∷ (0x1F28, 0x0397 ∷ 0x0313 ∷ [])
    ∷ (0x1F29, 0x0397 ∷ 0x0314 ∷ [])
    ∷ (0x1F2A, 0x0397 ∷ 0x0313 ∷ 0x0300 ∷ [])
    ∷ (0x1F2B, 0x0397 ∷ 0x0314 ∷ 0x0300 ∷ [])
    ∷ (0x1F2C, 0x0397 ∷ 0x0313 ∷ 0x0301 ∷ [])
    ∷ (0x1F2D, 0x0397 ∷ 0x0314 ∷ 0x0301 ∷ [])
    ∷ (0x1F2E, 0x0397 ∷ 0x0313 ∷ 0x0342 ∷ [])
    ∷ (0x1F2F, 0x0397 ∷ 0x0314 ∷ 0x0342 ∷ [])
    ∷ (0x1F30, 0x03B9 ∷ 0x0313 ∷ [])
    ∷ (0x1F31, 0x03B9 ∷ 0x0314 ∷ [])
    ∷ (0x1F32, 0x03B9 ∷ 0x0313 ∷ 0x0300 ∷ [])
    ∷ (0x1F33, 0x03B9 ∷ 0x0314 ∷ 0x0300 ∷ [])
    ∷ (0x1F34, 0x03B9 ∷ 0x0313 ∷ 0x0301 ∷ [])
    ∷ (0x1F35, 0x03B9 ∷ 0x0314 ∷ 0x0301 ∷ [])
    ∷ (0x1F36, 0x03B9 ∷ 0x0313 ∷ 0x0342 ∷ [])
    ∷ (0x1F37, 0x03B9 ∷ 0x0314 ∷ 0x0342 ∷ [])
    ∷ (0x1F38, 0x0399 ∷ 0x0313 ∷ [])
    ∷ []
