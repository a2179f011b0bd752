-- ===== src/Crc/Tests.antt =====
-- src/crc.c on the digits "123456789".
use sapphire_os.Prelude.{ok, ◌^◌, ◌<◌, ◌≡◌, refl, [], ◌∷◌, arith}
use sapphire_os.Crc.{crctab, crc_byte, partial_block, crc_block}
use sapphire_os.Crc.Blocks.{Bytes, divide, crc_block-divide}

crc_of_digits : crc_block (49 ∷ 50 ∷ 51 ∷ 52 ∷ 53 ∷ 54 ∷ 55 ∷ 56 ∷ 57 ∷ []) ≡ ok 0xE5CC
unfolding crc_block partial_block crc_byte crctab
crc_of_digits = refl

crc_block-divide_example :
    (crc_block (49 ∷ []) ≡ ok (divide 0xffff (49 ∷ 0 ∷ 0 ∷ [])))
    × (divide 0xffff (49 ∷ 0 ∷ 0 ∷ []) < 2 ^ 16)
crc_block-divide_example = crc_block-divide (49 ∷ []) (Bytes.cons (omega arith) Bytes.nil)
