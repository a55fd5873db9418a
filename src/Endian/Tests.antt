-- ===== src/Endian/Tests.antt =====
-- Byte orders at concrete inputs.
use fsview.Base.{◌≡◌, true, false, [], ◌∷◌}
use fsview.Endian.{in_memory, assign}
use fsview.Endian.Bytes.{in_memory-assign}

in_memory-assign_example :
    in_memory true 4 (assign true false 4 0x12345678).val ≡ 0x12 ∷ 0x34 ∷ 0x56 ∷ 0x78 ∷ []
in_memory-assign_example = in_memory-assign true false 4 0x12345678
