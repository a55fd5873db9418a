-- ===== src/Text/Euro/PartC.antt =====
-- impl/strenc.inc, the constructor EuroDeco::EuroDeco: the replacements from 0x0457 to 0x1E1B.
use fsview.Base.{ℕ, List, [], ◌∷◌}

abbrev pub replacements_c : List (ℕ × List ℕ)
replacements_c =
    (0x0457, 0x0456 ∷ 0x0308 ∷ [])
    ∷ (0x045C, 0x043A ∷ 0x0301 ∷ [])
    ∷ (0x045E, 0x0443 ∷ 0x0306 ∷ [])
    ∷ (0x0476, 0x0474 ∷ 0x030F ∷ [])
    ∷ (0x0477, 0x0475 ∷ 0x030F ∷ [])
    ∷ (0x04C1, 0x0416 ∷ 0x0306 ∷ [])
    ∷ (0x04C2, 0x0436 ∷ 0x0306 ∷ [])
    ∷ (0x04D0, 0x0410 ∷ 0x0306 ∷ [])
    ∷ (0x04D1, 0x0430 ∷ 0x0306 ∷ [])
    ∷ (0x04D2, 0x0410 ∷ 0x0308 ∷ [])
    ∷ (0x04D3, 0x0430 ∷ 0x0308 ∷ [])
    ∷ (0x04D4, 0x00C6 ∷ [])
    ∷ (0x04D5, 0x00E6 ∷ [])
    ∷ (0x04D6, 0x0415 ∷ 0x0306 ∷ [])
    ∷ (0x04D7, 0x0435 ∷ 0x0306 ∷ [])
    ∷ (0x04D8, 0x018F ∷ [])
    ∷ (0x04D9, 0x0259 ∷ [])
    ∷ (0x04DA, 0x018F ∷ 0x0308 ∷ [])
    ∷ (0x04DB, 0x0259 ∷ 0x0308 ∷ [])
    ∷ (0x04DC, 0x0416 ∷ 0x0308 ∷ [])
    ∷ (0x04DD, 0x0436 ∷ 0x0308 ∷ [])
    ∷ (0x04DE, 0x0417 ∷ 0x0308 ∷ [])
    ∷ (0x04DF, 0x0437 ∷ 0x0308 ∷ [])
    ∷ (0x04E0, 0x01B7 ∷ [])
    ∷ (0x04E1, 0x0292 ∷ [])
    ∷ (0x04E2, 0x0418 ∷ 0x0304 ∷ [])
    ∷ (0x04E3, 0x0438 ∷ 0x0304 ∷ [])
    ∷ (0x04E4, 0x0418 ∷ 0x0308 ∷ [])
    ∷ (0x04E5, 0x0438 ∷ 0x0308 ∷ [])
    ∷ (0x04E6, 0x041E ∷ 0x0308 ∷ [])
    ∷ (0x04E7, 0x043E ∷ 0x0308 ∷ [])
    ∷ (0x04E8, 0x019F ∷ [])
    ∷ (0x04E9, 0x0275 ∷ [])
    ∷ (0x04EA, 0x019F ∷ 0x0308 ∷ [])
    ∷ (0x04EB, 0x0275 ∷ 0x0308 ∷ [])
    ∷ (0x04EE, 0x0423 ∷ 0x0304 ∷ [])
    ∷ (0x04EF, 0x0443 ∷ 0x0304 ∷ [])
    ∷ (0x04F0, 0x0423 ∷ 0x0308 ∷ [])
    ∷ (0x04F1, 0x0443 ∷ 0x0308 ∷ [])
    ∷ (0x04F2, 0x0423 ∷ 0x030B ∷ [])
    ∷ (0x04F3, 0x0443 ∷ 0x030B ∷ [])
    ∷ (0x04F4, 0x0427 ∷ 0x0308 ∷ [])
    ∷ (0x04F5, 0x0447 ∷ 0x0308 ∷ [])
    ∷ (0x04F8, 0x042B ∷ 0x0308 ∷ [])
    ∷ (0x04F9, 0x044B ∷ 0x0308 ∷ [])
    ∷ (0x0929, 0x0928 ∷ 0x093C ∷ [])
    ∷ (0x0931, 0x0930 ∷ 0x093C ∷ [])
    ∷ (0x0934, 0x0933 ∷ 0x093C ∷ [])
    ∷ (0x0958, 0x0915 ∷ 0x093C ∷ [])
    ∷ (0x0959, 0x0916 ∷ 0x093C ∷ [])
    ∷ (0x095A, 0x0917 ∷ 0x093C ∷ [])
    ∷ (0x095B, 0x091C ∷ 0x093C ∷ [])
    ∷ (0x095C, 0x0921 ∷ 0x093C ∷ [])
    ∷ (0x095D, 0x0922 ∷ 0x093C ∷ [])
    ∷ (0x095E, 0x092B ∷ 0x093C ∷ [])
    ∷ (0x095F, 0x092F ∷ 0x093C ∷ [])
    ∷ (0x09B0, 0x09AC ∷ 0x09BC ∷ [])
    ∷ (0x09CB, 0x09C7 ∷ 0x09BE ∷ [])
    ∷ (0x09CC, 0x09C7 ∷ 0x09D7 ∷ [])
    ∷ (0x09DC, 0x09A1 ∷ 0x09BC ∷ [])
    ∷ (0x09DD, 0x09A2 ∷ 0x09BC ∷ [])
    ∷ (0x09DF, 0x09AF ∷ 0x09BC ∷ [])
    ∷ (0x0A59, 0x0A16 ∷ 0x0A3C ∷ [])
    ∷ (0x0A5A, 0x0A17 ∷ 0x0A3C ∷ [])
    ∷ (0x0A5B, 0x0A1C ∷ 0x0A3C ∷ [])
    ∷ (0x0A5C, 0x0A21 ∷ 0x0A3C ∷ [])
    ∷ (0x0A5E, 0x0A2B ∷ 0x0A3C ∷ [])
    ∷ (0x0B48, 0x0B47 ∷ 0x0B56 ∷ [])
    ∷ (0x0B4B, 0x0B47 ∷ 0x0B3E ∷ [])
    ∷ (0x0B4C, 0x0B47 ∷ 0x0B57 ∷ [])
    ∷ (0x0B5C, 0x0B21 ∷ 0x0B3C ∷ [])
    ∷ (0x0B5D, 0x0B22 ∷ 0x0B3C ∷ [])
    ∷ (0x0B5F, 0x0B2F ∷ 0x0B3C ∷ [])
    ∷ (0x0B94, 0x0B92 ∷ 0x0BD7 ∷ [])
    ∷ (0x0BCA, 0x0BC6 ∷ 0x0BBE ∷ [])
    ∷ (0x0BCB, 0x0BC7 ∷ 0x0BBE ∷ [])
    ∷ (0x0BCC, 0x0BC6 ∷ 0x0BD7 ∷ [])
    ∷ (0x0C48, 0x0C46 ∷ 0x0C56 ∷ [])
    ∷ (0x0CC0, 0x0CBF ∷ 0x0CD5 ∷ [])
    ∷ (0x0CC7, 0x0CC6 ∷ 0x0CD5 ∷ [])
    ∷ (0x0CC8, 0x0CC6 ∷ 0x0CD6 ∷ [])
    ∷ (0x0CCA, 0x0CC6 ∷ 0x0CC2 ∷ [])
    ∷ (0x0CCB, 0x0CC6 ∷ 0x0CC2 ∷ 0x0CD5 ∷ [])
    ∷ (0x0D4A, 0x0D46 ∷ 0x0D3E ∷ [])
    ∷ (0x0D4B, 0x0D47 ∷ 0x0D3E ∷ [])
    ∷ (0x0D4C, 0x0D46 ∷ 0x0D57 ∷ [])
    ∷ (0x0E33, 0x0E4D ∷ 0x0E32 ∷ [])
    ∷ (0x0EB3, 0x0ECD ∷ 0x0EB2 ∷ [])
    ∷ (0x0F43, 0x0F42 ∷ 0x0FB7 ∷ [])
    ∷ (0x0F4D, 0x0F4C ∷ 0x0FB7 ∷ [])
    ∷ (0x0F52, 0x0F51 ∷ 0x0FB7 ∷ [])
    ∷ (0x0F57, 0x0F56 ∷ 0x0FB7 ∷ [])
    ∷ (0x0F5C, 0x0F5B ∷ 0x0FB7 ∷ [])
    ∷ (0x0F69, 0x0F40 ∷ 0x0FB5 ∷ [])
    ∷ (0x0F73, 0x0F72 ∷ 0x0F71 ∷ [])
    ∷ (0x0F75, 0x0F74 ∷ 0x0F71 ∷ [])
    ∷ (0x0F76, 0x0FB2 ∷ 0x0F80 ∷ [])
    ∷ (0x0F77, 0x0FB2 ∷ 0x0F80 ∷ 0x0F71 ∷ [])
    ∷ (0x0F78, 0x0FB3 ∷ 0x0F80 ∷ [])
    ∷ (0x0F79, 0x0FB3 ∷ 0x0F80 ∷ 0x0F71 ∷ [])
    ∷ (0x0F81, 0x0F80 ∷ 0x0F71 ∷ [])
    ∷ (0x0F93, 0x0F92 ∷ 0x0FB7 ∷ [])
    ∷ (0x0F9D, 0x0F9C ∷ 0x0FB7 ∷ [])
    ∷ (0x0FA2, 0x0FA1 ∷ 0x0FB7 ∷ [])
    ∷ (0x0FA7, 0x0FA6 ∷ 0x0FB7 ∷ [])
    ∷ (0x0FAC, 0x0FAB ∷ 0x0FB7 ∷ [])
    ∷ (0x0FB9, 0x0F90 ∷ 0x0FB5 ∷ [])
    ∷ (0x1E00, 0x0041 ∷ 0x0325 ∷ [])
    ∷ (0x1E01, 0x0061 ∷ 0x0325 ∷ [])
    ∷ (0x1E02, 0x0042 ∷ 0x0307 ∷ [])
    ∷ (0x1E03, 0x0062 ∷ 0x0307 ∷ [])
    ∷ (0x1E04, 0x0042 ∷ 0x0323 ∷ [])
    ∷ (0x1E05, 0x0062 ∷ 0x0323 ∷ [])
    ∷ (0x1E06, 0x0042 ∷ 0x0331 ∷ [])
    ∷ (0x1E07, 0x0062 ∷ 0x0331 ∷ [])
    ∷ (0x1E08, 0x0043 ∷ 0x0327 ∷ 0x0301 ∷ [])
    ∷ (0x1E09, 0x0063 ∷ 0x0327 ∷ 0x0301 ∷ [])
    ∷ (0x1E0A, 0x0044 ∷ 0x0307 ∷ [])
    ∷ (0x1E0B, 0x0064 ∷ 0x0307 ∷ [])
    ∷ (0x1E0C, 0x0044 ∷ 0x0323 ∷ [])
    ∷ (0x1E0D, 0x0064 ∷ 0x0323 ∷ [])
    ∷ (0x1E0E, 0x0044 ∷ 0x0331 ∷ [])
    ∷ (0x1E0F, 0x0064 ∷ 0x0331 ∷ [])
    ∷ (0x1E10, 0x0044 ∷ 0x0327 ∷ [])
    ∷ (0x1E11, 0x0064 ∷ 0x0327 ∷ [])
    ∷ (0x1E12, 0x0044 ∷ 0x032D ∷ [])
    ∷ (0x1E13, 0x0064 ∷ 0x032D ∷ [])
    ∷ (0x1E14, 0x0045 ∷ 0x0304 ∷ 0x0300 ∷ [])
    ∷ (0x1E15, 0x0065 ∷ 0x0304 ∷ 0x0300 ∷ [])
    ∷ (0x1E16, 0x0045 ∷ 0x0304 ∷ 0x0301 ∷ [])
    ∷ (0x1E17, 0x0065 ∷ 0x0304 ∷ 0x0301 ∷ [])
    ∷ (0x1E18, 0x0045 ∷ 0x032D ∷ [])
    ∷ (0x1E19, 0x0065 ∷ 0x032D ∷ [])
    ∷ (0x1E1A, 0x0045 ∷ 0x0330 ∷ [])
    ∷ (0x1E1B, 0x0065 ∷ 0x0330 ∷ [])
    ∷ []
