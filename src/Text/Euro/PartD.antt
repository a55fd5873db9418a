-- ===== src/Text/Euro/PartD.antt =====
-- impl/strenc.inc, the constructor EuroDeco::EuroDeco: the replacements from 0x1E1C to 0x1EA7.
use fsview.Base.{ℕ, List, [], ◌∷◌}

abbrev pub replacements_d : List (ℕ × List ℕ)
replacements_d =
    (0x1E1C, 0x0045 ∷ 0x0327 ∷ 0x0306 ∷ [])
    ∷ (0x1E1D, 0x0065 ∷ 0x0327 ∷ 0x0306 ∷ [])
    ∷ (0x1E1E, 0x0046 ∷ 0x0307 ∷ [])
    ∷ (0x1E1F, 0x0066 ∷ 0x0307 ∷ [])
    ∷ (0x1E20, 0x0047 ∷ 0x0304 ∷ [])
    ∷ (0x1E21, 0x0067 ∷ 0x0304 ∷ [])
    ∷ (0x1E22, 0x0048 ∷ 0x0307 ∷ [])
    ∷ (0x1E23, 0x0068 ∷ 0x0307 ∷ [])
    ∷ (0x1E24, 0x0048 ∷ 0x0323 ∷ [])
    ∷ (0x1E25, 0x0068 ∷ 0x0323 ∷ [])
    ∷ (0x1E26, 0x0048 ∷ 0x0308 ∷ [])
    ∷ (0x1E27, 0x0068 ∷ 0x0308 ∷ [])
    ∷ (0x1E28, 0x0048 ∷ 0x0327 ∷ [])
    ∷ (0x1E29, 0x0068 ∷ 0x0327 ∷ [])
    ∷ (0x1E2A, 0x0048 ∷ 0x032E ∷ [])
    ∷ (0x1E2B, 0x0068 ∷ 0x032E ∷ [])
    ∷ (0x1E2C, 0x0049 ∷ 0x0330 ∷ [])
    ∷ (0x1E2D, 0x0069 ∷ 0x0330 ∷ [])
    ∷ (0x1E2E, 0x0049 ∷ 0x0308 ∷ 0x0301 ∷ [])
    ∷ (0x1E2F, 0x0069 ∷ 0x0308 ∷ 0x0301 ∷ [])
    ∷ (0x1E30, 0x004B ∷ 0x0301 ∷ [])
    ∷ (0x1E31, 0x006B ∷ 0x0301 ∷ [])
    ∷ (0x1E32, 0x004B ∷ 0x0323 ∷ [])
    ∷ (0x1E33, 0x006B ∷ 0x0323 ∷ [])
    ∷ (0x1E34, 0x004B ∷ 0x0331 ∷ [])
    ∷ (0x1E35, 0x006B ∷ 0x0331 ∷ [])
    ∷ (0x1E36, 0x004C ∷ 0x0323 ∷ [])
    ∷ (0x1E37, 0x006C ∷ 0x0323 ∷ [])
    ∷ (0x1E38, 0x004C ∷ 0x0323 ∷ 0x0304 ∷ [])
    ∷ (0x1E39, 0x006C ∷ 0x0323 ∷ 0x0304 ∷ [])
    ∷ (0x1E3A, 0x004C ∷ 0x0331 ∷ [])
    ∷ (0x1E3B, 0x006C ∷ 0x0331 ∷ [])
    ∷ (0x1E3C, 0x004C ∷ 0x032D ∷ [])
    ∷ (0x1E3D, 0x006C ∷ 0x032D ∷ [])
    ∷ (0x1E3E, 0x004D ∷ 0x0301 ∷ [])
    ∷ (0x1E3F, 0x006D ∷ 0x0301 ∷ [])
    ∷ (0x1E40, 0x004D ∷ 0x0307 ∷ [])
    ∷ (0x1E41, 0x006D ∷ 0x0307 ∷ [])
    ∷ (0x1E42, 0x004D ∷ 0x0323 ∷ [])
    ∷ (0x1E43, 0x006D ∷ 0x0323 ∷ [])
    ∷ (0x1E44, 0x004E ∷ 0x0307 ∷ [])
    ∷ (0x1E45, 0x006E ∷ 0x0307 ∷ [])
    ∷ (0x1E46, 0x004E ∷ 0x0323 ∷ [])
    ∷ (0x1E47, 0x006E ∷ 0x0323 ∷ [])
    ∷ (0x1E48, 0x004E ∷ 0x0331 ∷ [])
    ∷ (0x1E49, 0x006E ∷ 0x0331 ∷ [])
    ∷ (0x1E4A, 0x004E ∷ 0x032D ∷ [])
    ∷ (0x1E4B, 0x006E ∷ 0x032D ∷ [])
    ∷ (0x1E4C, 0x004F ∷ 0x0303 ∷ 0x0301 ∷ [])
    ∷ (0x1E4D, 0x006F ∷ 0x0303 ∷ 0x0301 ∷ [])
    ∷ (0x1E4E, 0x004F ∷ 0x0303 ∷ 0x0308 ∷ [])
    ∷ (0x1E4F, 0x006F ∷ 0x0303 ∷ 0x0308 ∷ [])
    ∷ (0x1E50, 0x004F ∷ 0x0304 ∷ 0x0300 ∷ [])
    ∷ (0x1E51, 0x006F ∷ 0x0304 ∷ 0x0300 ∷ [])
    ∷ (0x1E52, 0x004F ∷ 0x0304 ∷ 0x0301 ∷ [])
    ∷ (0x1E53, 0x006F ∷ 0x0304 ∷ 0x0301 ∷ [])
    ∷ (0x1E54, 0x0050 ∷ 0x0301 ∷ [])
    ∷ (0x1E55, 0x0070 ∷ 0x0301 ∷ [])
    ∷ (0x1E56, 0x0050 ∷ 0x0307 ∷ [])
    ∷ (0x1E57, 0x0070 ∷ 0x0307 ∷ [])
    ∷ (0x1E58, 0x0052 ∷ 0x0307 ∷ [])
    ∷ (0x1E59, 0x0072 ∷ 0x0307 ∷ [])
    ∷ (0x1E5A, 0x0052 ∷ 0x0323 ∷ [])
    ∷ (0x1E5B, 0x0072 ∷ 0x0323 ∷ [])
    ∷ (0x1E5C, 0x0052 ∷ 0x0323 ∷ 0x0304 ∷ [])
    ∷ (0x1E5D, 0x0072 ∷ 0x0323 ∷ 0x0304 ∷ [])
    ∷ (0x1E5E, 0x0052 ∷ 0x0331 ∷ [])
    ∷ (0x1E5F, 0x0072 ∷ 0x0331 ∷ [])
    ∷ (0x1E60, 0x0053 ∷ 0x0307 ∷ [])
    ∷ (0x1E61, 0x0073 ∷ 0x0307 ∷ [])
    ∷ (0x1E62, 0x0053 ∷ 0x0323 ∷ [])
    ∷ (0x1E63, 0x0073 ∷ 0x0323 ∷ [])
    ∷ (0x1E64, 0x0053 ∷ 0x0301 ∷ 0x0307 ∷ [])
    ∷ (0x1E65, 0x0073 ∷ 0x0301 ∷ 0x0307 ∷ [])
    ∷ (0x1E66, 0x0053 ∷ 0x030C ∷ 0x0307 ∷ [])
    ∷ (0x1E67, 0x0073 ∷ 0x030C ∷ 0x0307 ∷ [])
    ∷ (0x1E68, 0x0053 ∷ 0x0323 ∷ 0x0307 ∷ [])
    ∷ (0x1E69, 0x0073 ∷ 0x0323 ∷ 0x0307 ∷ [])
    ∷ (0x1E6A, 0x0054 ∷ 0x0307 ∷ [])
    ∷ (0x1E6B, 0x0074 ∷ 0x0307 ∷ [])
    ∷ (0x1E6C, 0x0054 ∷ 0x0323 ∷ [])
    ∷ (0x1E6D, 0x0074 ∷ 0x0323 ∷ [])
    ∷ (0x1E6E, 0x0054 ∷ 0x0331 ∷ [])
    ∷ (0x1E6F, 0x0074 ∷ 0x0331 ∷ [])
    ∷ (0x1E70, 0x0054 ∷ 0x032D ∷ [])
    ∷ (0x1E71, 0x0074 ∷ 0x032D ∷ [])
    ∷ (0x1E72, 0x0055 ∷ 0x0324 ∷ [])
    ∷ (0x1E73, 0x0075 ∷ 0x0324 ∷ [])
    ∷ (0x1E74, 0x0055 ∷ 0x0330 ∷ [])
    ∷ (0x1E75, 0x0075 ∷ 0x0330 ∷ [])
    ∷ (0x1E76, 0x0055 ∷ 0x032D ∷ [])
    ∷ (0x1E77, 0x0075 ∷ 0x032D ∷ [])
    ∷ (0x1E78, 0x0055 ∷ 0x0303 ∷ 0x0301 ∷ [])
    ∷ (0x1E79, 0x0075 ∷ 0x0303 ∷ 0x0301 ∷ [])
    ∷ (0x1E7A, 0x0055 ∷ 0x0304 ∷ 0x0308 ∷ [])
    ∷ (0x1E7B, 0x0075 ∷ 0x0304 ∷ 0x0308 ∷ [])
    ∷ (0x1E7C, 0x0056 ∷ 0x0303 ∷ [])
    ∷ (0x1E7D, 0x0076 ∷ 0x0303 ∷ [])
    ∷ (0x1E7E, 0x0056 ∷ 0x0323 ∷ [])
    ∷ (0x1E7F, 0x0076 ∷ 0x0323 ∷ [])
    ∷ (0x1E80, 0x0057 ∷ 0x0300 ∷ [])
    ∷ (0x1E81, 0x0077 ∷ 0x0300 ∷ [])
    ∷ (0x1E82, 0x0057 ∷ 0x0301 ∷ [])
    ∷ (0x1E83, 0x0077 ∷ 0x0301 ∷ [])
    ∷ (0x1E84, 0x0057 ∷ 0x0308 ∷ [])
    ∷ (0x1E85, 0x0077 ∷ 0x0308 ∷ [])
    ∷ (0x1E86, 0x0057 ∷ 0x0307 ∷ [])
    ∷ (0x1E87, 0x0077 ∷ 0x0307 ∷ [])
    ∷ (0x1E88, 0x0057 ∷ 0x0323 ∷ [])
    ∷ (0x1E89, 0x0077 ∷ 0x0323 ∷ [])
    ∷ (0x1E8A, 0x0058 ∷ 0x0307 ∷ [])
    ∷ (0x1E8B, 0x0078 ∷ 0x0307 ∷ [])
    ∷ (0x1E8C, 0x0058 ∷ 0x0308 ∷ [])
    ∷ (0x1E8D, 0x0078 ∷ 0x0308 ∷ [])
    ∷ (0x1E8E, 0x0059 ∷ 0x0307 ∷ [])
    ∷ (0x1E8F, 0x0079 ∷ 0x0307 ∷ [])
    ∷ (0x1E90, 0x005A ∷ 0x0302 ∷ [])
    ∷ (0x1E91, 0x007A ∷ 0x0302 ∷ [])
    ∷ (0x1E92, 0x005A ∷ 0x0323 ∷ [])
    ∷ (0x1E93, 0x007A ∷ 0x0323 ∷ [])
    ∷ (0x1E94, 0x005A ∷ 0x0331 ∷ [])
    ∷ (0x1E95, 0x007A ∷ 0x0331 ∷ [])
    ∷ (0x1E96, 0x0068 ∷ 0x0331 ∷ [])
    ∷ (0x1E97, 0x0074 ∷ 0x0308 ∷ [])
    ∷ (0x1E98, 0x0077 ∷ 0x030A ∷ [])
    ∷ (0x1E99, 0x0079 ∷ 0x030A ∷ [])
    ∷ (0x1E9B, 0x017F ∷ 0x0307 ∷ [])
    ∷ (0x1EA0, 0x0041 ∷ 0x0323 ∷ [])
    ∷ (0x1EA1, 0x0061 ∷ 0x0323 ∷ [])
    ∷ (0x1EA2, 0x0041 ∷ 0x0309 ∷ [])
    ∷ (0x1EA3, 0x0061 ∷ 0x0309 ∷ [])
    ∷ (0x1EA4, 0x0041 ∷ 0x0302 ∷ 0x0301 ∷ [])
    ∷ (0x1EA5, 0x0061 ∷ 0x0302 ∷ 0x0301 ∷ [])
    ∷ (0x1EA6, 0x0041 ∷ 0x0302 ∷ 0x0300 ∷ [])
    ∷ (0x1EA7, 0x0061 ∷ 0x0302 ∷ 0x0300 ∷ [])
    ∷ []
