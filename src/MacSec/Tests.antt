-- ===== src/MacSec/Tests.antt =====
-- Two neighbours, whose keys and vectors are those of the tests of src/crypt.c's model.
use sapphire_os.Prelude.{Returns, pos, ℕ, ◌≡◌, refl, List, [], ◌∷◌, arith}
use sapphire_os.Crypt.{Aes, copies}
use sapphire_os.Crypt.Cbc.{IsBlockCipher}
use sapphire_os.MacSec.{MacSec, Neighbor, get_neighbor, verify_message, sign_message}
use sapphire_os.MacSec.Verify.{Verified, verify_message-Verified, verify_message-sign_message}
use sapphire_os.MacSec.Replay.{Frame, Increasing, receive_all, receive_all-Increasing}

abbrev plain : Aes
plain = record { encrypt = λ k m. m; decrypt = λ k m. m }

plain-IsBlockCipher : IsBlockCipher plain
plain-IsBlockCipher = record { size = λ k m e. e; undone = λ k m e. refl }

abbrev key : List ℕ
key = copies 16 7

abbrev near : Neighbor
near = record { short_addr = 12; iv = copies 16 3; replay_counter = 5 }

abbrev two : List Neighbor
two = record { short_addr = 11; iv = copies 16 2; replay_counter = 9 } ∷ near ∷ []

abbrev node : MacSec
node = record { session_iv = copies 16 3; replay_counter = 6 }

abbrev hello : List ℕ
hello = 104 ∷ 101 ∷ 108 ∷ 108 ∷ 111 ∷ []

verify_message-Verified_example :
    Returns
      (Verified plain key 12 7 hello (copies 12 0) two)
      (verify_message plain key 12 7 hello (copies 12 0) two)
verify_message-Verified_example =
    verify_message-Verified plain plain-IsBlockCipher key 12 7 hello (copies 12 0) two
      (omega arith, (omega arith, tt)) (omega arith)

verify_message-sign_message_example :
    Returns
      (λ tag.
        Returns (λ (status, ns'). status ≡ pos 0) (verify_message plain key 12 7 hello tag two))
      (sign_message plain key hello node)
unfolding get_neighbor
verify_message-sign_message_example =
    verify_message-sign_message plain plain-IsBlockCipher key node near 12 7 hello two (omega arith)
      (omega arith) refl refl (omega arith)

abbrev frames : List Frame
frames =
    record { short_addr = 12; counter = 7; payload = hello; auth_tag = copies 12 0 }
    ∷ record { short_addr = 12; counter = 7; payload = hello; auth_tag = copies 12 0 }
    ∷ []

receive_all-Increasing_example :
    Returns (λ (log, ns'). Increasing log) (receive_all plain key frames two)
receive_all-Increasing_example =
    receive_all-Increasing plain key plain-IsBlockCipher frames two (omega arith, (omega arith, tt))
      (omega arith, (omega arith, tt))
