-- ===== src/Bytes/Tests.antt =====
-- Runs of helpers/utils.ts.
use mootvote.Base.{[], ◌∷◌}
use mootvote.Bytes.{hex_to_bytes32}
use mootvote.Bytes.Hex.{Decodes, hex_to_bytes32-Decodes}

-- The text "0xAb1".
hex_to_bytes32-Decodes_example :
    Decodes (65 ∷ 98 ∷ 49 ∷ []) (hex_to_bytes32 (48 ∷ 120 ∷ 65 ∷ 98 ∷ 49 ∷ []))
hex_to_bytes32-Decodes_example = hex_to_bytes32-Decodes (48 ∷ 120 ∷ 65 ∷ 98 ∷ 49 ∷ [])
