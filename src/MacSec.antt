-- ===== src/MacSec.antt =====
-- src/wcom_mac_sec.c: the signatures of the radio's frames and the check against replays. The key is the
-- one that src/config.c stores for it, and the radio's random numbers are a parameter. The table of
-- neighbours is that of src/wcom_neighbors.c, in the order of its list.
pub mod Verify
pub mod Replay
mod Tests
use sapphire_os.Prelude.{
  leb, ◌==◌, if◌then◌else◌, length, same_bytes, ℤ, add32, ◌>>=◌, Run, pos, negsuc, ok, ℕ, zero, suc,
  Option, none, some, List, [], ◌∷◌, ◌++◌,
}
use sapphire_os.Crypt.{Aes, xcbc_mac_96}

pub record MacSec : Type 0 where
  pub session_iv : List ℕ
  pub replay_counter : ℕ

-- `wcom_neighbor_t`, the fields that this module uses
pub record Neighbor : Type 0 where
  pub short_addr : ℕ
  pub iv : List ℕ
  pub replay_counter : ℕ

module _ {R : Type 0} (get_random : R → ℕ × R) where
  abbrev random_bytes : ℕ → R → List ℕ × R
  random_bytes zero radio = ([], radio)
  random_bytes (suc n) radio =
      let (byte, radio') = get_random radio in
      let (bytes, radio'') = random_bytes n radio' in (byte ∷ bytes, radio'')

  -- `wcom_mac_sec_v_init`
  unfoldable pub init : R → MacSec × R
  init radio =
      let (iv, radio') = random_bytes 16 radio in
      (record { session_iv = iv; replay_counter = 1 }, radio')

-- `wcom_mac_sec_u32_get_replay_counter`
unfoldable pub get_replay_counter : MacSec → ℕ × MacSec
get_replay_counter s =
    let counter = add32 s.replay_counter 1 in (counter, record s { replay_counter = counter })

-- `wcom_neighbors_p_get_neighbor`
unfoldable pub get_neighbor : ℕ → List Neighbor → Option Neighbor
get_neighbor addr [] = none
get_neighbor addr (n ∷ ns) = if n.short_addr == addr then some n else get_neighbor addr ns

-- the assignment to `neighbor->replay_counter`
unfoldable pub set_counter : ℕ → ℕ → List Neighbor → List Neighbor
set_counter addr counter [] = []
set_counter addr counter (n ∷ ns) =
    if n.short_addr == addr
    then record n { replay_counter = counter } ∷ ns
    else n ∷ set_counter addr counter ns

module _ (aes : Aes) (key : List ℕ) where
  -- `wcom_mac_sec_v_compute_auth_tag`
  unfoldable pub compute_auth_tag : List ℕ → List ℕ → Run (List ℕ)
  compute_auth_tag iv data_ = xcbc_mac_96 aes key (iv ++ data_) (length (iv ++ data_))

  -- `wcom_mac_sec_v_sign_message`
  unfoldable pub sign_message : List ℕ → MacSec → Run (List ℕ)
  sign_message data_ s = compute_auth_tag s.session_iv data_

  -- `wcom_mac_sec_i8_verify_message`
  unfoldable pub verify_message : ℕ → ℕ → List ℕ → List ℕ → List Neighbor → Run (ℤ × List Neighbor)
  verify_message addr counter data_ auth_tag ns = elim (get_neighbor addr ns) [
    | none ↦ ok (negsuc 0, ns)
    | some n ↦
        if leb counter n.replay_counter
        then ok (negsuc 1, ns)
        else (compute_auth_tag n.iv data_ >>= λ tag. ok (
            if same_bytes tag auth_tag
            then (pos 0, set_counter addr counter ns)
            else (negsuc 2, ns)))
  ]
