-- ===== src/Patches/Examples.antt =====
-- Runs of the patch functions.
use tftsp.Common.{◌≡◌, List, [], ◌∷◌, text}
use tftsp.Patches.{JsonPatchOp, add, remove, str, decode_segment}
use tftsp.Patches.Pointers.{decode_segment-encode_segment, encode_segment}

decode_segment-encode_segment_example :
    decode_segment (encode_segment (text "a/b~1")) ≡ text "a/b~1"
decode_segment-encode_segment_example = decode_segment-encode_segment (text "a/b~1")

-- a field is added and then removed
abbrev two_ops : List JsonPatchOp
two_ops =
    record { op = add; path = text "/laqab"; value = str (text "x") }
    ∷ record { op = remove; path = text "/laqab"; value = str [] }
    ∷ []
