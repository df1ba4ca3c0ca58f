-- ===== src/Ipp/Profile/Tests.antt =====
-- A printer's answer, and a profile that it fits.
use espresso.Prelude.{Bool, true, ltb, ◌&&◌, codes, [], ◌∷◌, ◌++◌, Bytes}

abbrev answer : Bytes
answer =
    (1 ∷ 1 ∷ 0 ∷ 0 ∷ 0 ∷ 0 ∷ 0 ∷ 1 ∷ 4 ∷ [])
    ++ (0x42 ∷ 0 ∷ 12 ∷ codes "printer-name")
    ++ (0 ∷ 1 ∷ codes "p")
    ++ (0x44 ∷ 0 ∷ 13 ∷ codes "urf-supported")
    ++ (0 ∷ 8 ∷ codes "RS300-60")
    ++ (3 ∷ [])

all_bytes : Bytes → Bool
all_bytes [] = true
all_bytes (b ∷ bs) = ltb b 256 && all_bytes bs
