-- ===== src/Patches/Pointers.antt =====
-- json-patch.ts `decodeSegment` undoes the escaping of RFC 6901.
use tftsp.Common.{ap, ◌∙◌, ℕ, ◌≡◌, refl, false, [], ◌∷◌, ◌++◌, if◌then◌else◌, ◌==◌, Text, arith}
use tftsp.Patches.{replace_escape, decode_segment}

-- the escaping of one character: `~0` for a tilde, `~1` for a slash
abbrev pub escape : ℕ → Text
escape c = if c == 126 then 126 ∷ (48 ∷ []) else if c == 47 then 126 ∷ (49 ∷ []) else c ∷ []

abbrev pub encode_segment : Text → Text
encode_segment [] = []
encode_segment (c ∷ s) = escape c ++ encode_segment s

-- the escaping of the tildes alone
abbrev escape_tildes : Text → Text
escape_tildes [] = []
escape_tildes (c ∷ s) = (if c == 126 then 126 ∷ (48 ∷ []) else c ∷ []) ++ escape_tildes s

first_pass : (s : Text) → replace_escape 49 47 false (encode_segment s) ≡ escape_tildes s
unfolding replace_escape
first_pass [] = refl
first_pass (c ∷ s) = ground (arith, first_pass s)

second_pass : (s : Text) → replace_escape 48 126 false (escape_tildes s) ≡ s
unfolding replace_escape
second_pass [] = refl
second_pass (c ∷ s) = ground (arith, second_pass s)

-- Decoding an escaped segment gives the segment back.
pub decode_segment-encode_segment : (s : Text) → decode_segment (encode_segment s) ≡ s
unfolding decode_segment
decode_segment-encode_segment s = ap (replace_escape 48 126 false) (first_pass s) ∙ second_pass s
