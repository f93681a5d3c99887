-- ===== src/Protocol/Crc/Streaming.antt =====
-- A checksum taken in pieces, as copy_and_crc of firmware/image.c takes it, is the checksum of the
-- whole.
use embedded_systems_runtime.Prelude.{ℕ, ◌≡◌, refl, List, [], ◌∷◌, ◌++◌}
use embedded_systems_runtime.Protocol.Crc.{crc_byte, crc32_update}

pub crc32_update-append :
    (s : ℕ) (xs ys : List ℕ) → crc32_update s (xs ++ ys) ≡ crc32_update (crc32_update s xs) ys
unfolding crc32_update
crc32_update-append s [] ys = refl
crc32_update-append s (x ∷ xs) ys = crc32_update-append (crc_byte s x) xs ys
