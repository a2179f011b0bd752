-- ===== src/MacSec/Verify.antt =====
-- The outcomes of the check of a frame.
use sapphire_os.Prelude.{
  leb, ◌==◌, ==→eq, Bool-cases, Option-cases, length, length-append, same_bytes, same_bytes_self, ℤ,
  Returns-value, Returns, pos, negsuc, ok, returns, ℕ, ◌≤◌, ◌<◌, ◌≡◌, refl, ap, ◌∙◌, ◌≢◌, inl, inr,
  true, false, none, some, List, [], ◌∷◌, ◌++◌, arith,
}
use sapphire_os.Crypt.{Aes}
use sapphire_os.Crypt.Cbc.{IsBlockCipher}
use sapphire_os.Crypt.Cut.{xcbc_mac_96-length}
use sapphire_os.MacSec.{
  MacSec, Neighbor, get_neighbor, set_counter, compute_auth_tag, sign_message, verify_message,
}

-- the neighbours' vectors are not longer than a key
abbrev pub AreShort : List Neighbor → Type 0
AreShort [] = Unit
AreShort (n ∷ ns) = (length n.iv ≤ 16) × AreShort ns

get_neighbor-short :
    (addr : ℕ) (ns : List Neighbor) (n : Neighbor)
    → AreShort ns
    → get_neighbor addr ns ≡ some n
    → length n.iv ≤ 16
unfolding get_neighbor
get_neighbor-short addr [] n s e = cc
get_neighbor-short addr (m ∷ ns) n s e = elim (Bool-cases (m.short_addr == addr)) [
  | inl h ↦ let is : some m ≡ some n = rw (← e, get_neighbor, h) refl in ground (arith, s.0, is)
  | inr h ↦ get_neighbor-short addr ns n s.1 (rw (← e, get_neighbor, h) refl)
]

get_neighbor-set_counter :
    (addr counter : ℕ) (ns : List Neighbor) (n : Neighbor)
    → get_neighbor addr ns ≡ some n
    → get_neighbor addr (set_counter addr counter ns) ≡ some (record n { replay_counter = counter })
unfolding get_neighbor set_counter
get_neighbor-set_counter addr counter [] n e = cc
get_neighbor-set_counter addr counter (m ∷ ns) n e = elim (Bool-cases (m.short_addr == addr)) [
  | inl h ↦
      let is : some m ≡ some n = rw (← e, get_neighbor, h) refl in
      rw (h, get_neighbor, h)
        (ap (λ o. elim o [ none ↦ none | some x ↦ some (record x { replay_counter = counter }) ])
          is)
  | inr h ↦
      rw (h, get_neighbor, h)
        (get_neighbor-set_counter addr counter ns n (rw (← e, get_neighbor, h) refl))
]

get_neighbor-set_counter_other :
    (addr other counter : ℕ) (ns : List Neighbor)
    → other ≢ addr
    → get_neighbor other (set_counter addr counter ns) ≡ get_neighbor other ns
unfolding get_neighbor set_counter
get_neighbor-set_counter_other addr other counter [] d = refl
get_neighbor-set_counter_other addr other counter (m ∷ ns) d =
    let next = get_neighbor-set_counter_other addr other counter ns d in
    elim (Bool-cases (m.short_addr == addr)) [
      | inl h ↦
          let away : (m.short_addr == other) ≡ false =
            ground (arith, d, ==→eq m.short_addr addr h) in
          rw (h, get_neighbor, away) refl
      | inr h ↦ rw (h, get_neighbor, next) refl
    ]

pub AreShort-set_counter :
    (addr counter : ℕ) (ns : List Neighbor) → AreShort ns → AreShort (set_counter addr counter ns)
unfolding set_counter
AreShort-set_counter addr counter [] s = tt
AreShort-set_counter addr counter (m ∷ ns) s = elim (Bool-cases (m.short_addr == addr)) [
  | inl h ↦ rw h s
  | inr h ↦ rw h (s.0, AreShort-set_counter addr counter ns s.1)
]

-- the check of a frame, case by case
pub data Verified (aes : Aes) (key : List ℕ) (addr counter : ℕ) (data_ auth_tag : List ℕ)
    (ns : List Neighbor) : ℤ × List Neighbor → Type 0 where
  unknown :
      get_neighbor addr ns ≡ none → Verified aes key addr counter data_ auth_tag ns (negsuc 0, ns)
  replayed :
      (n : Neighbor)
      → get_neighbor addr ns ≡ some n
      → counter ≤ n.replay_counter
      → Verified aes key addr counter data_ auth_tag ns (negsuc 1, ns)
  forged :
      (n : Neighbor) (tag : List ℕ)
      → get_neighbor addr ns ≡ some n
      → n.replay_counter < counter
      → compute_auth_tag aes key n.iv data_ ≡ ok tag
      → same_bytes tag auth_tag ≡ false
      → Verified aes key addr counter data_ auth_tag ns (negsuc 2, ns)
  accepted :
      (n : Neighbor) (tag : List ℕ) (ns' : List Neighbor)
      → get_neighbor addr ns ≡ some n
      → n.replay_counter < counter
      → compute_auth_tag aes key n.iv data_ ≡ ok tag
      → same_bytes tag auth_tag ≡ true
      → get_neighbor addr ns' ≡ some (record n { replay_counter = counter })
      → ((other : ℕ) → other ≢ addr → get_neighbor other ns' ≡ get_neighbor other ns)
      → AreShort ns'
      → Verified aes key addr counter data_ auth_tag ns (pos 0, ns')

module _ (aes : Aes) (c : IsBlockCipher aes) (key : List ℕ) where
  compute_auth_tag-total :
      (iv data_ : List ℕ)
      → length iv ≤ 16
      → length data_ ≤ 4064
      → Returns (λ tag. length tag ≡ 12) (compute_auth_tag aes key iv data_)
  unfolding compute_auth_tag
  compute_auth_tag-total iv data_ p q =
      xcbc_mac_96-length aes c key (iv ++ data_) (omega (arith, length-append iv data_))

  -- Where the vectors of the neighbours are not longer than a key, the check of a frame of at most 4064
  -- bytes ends. A frame from an unknown address gives -1; one whose counter is not above the neighbour's
  -- gives -2; one with another tag than the neighbour's vector and the key give it is refused with -3; and
  -- only any other one is accepted, whose counter becomes that of the neighbour, and of no other.
  pub verify_message-Verified :
      (addr counter : ℕ) (data_ auth_tag : List ℕ) (ns : List Neighbor)
      → AreShort ns
      → length data_ ≤ 4064
      → Returns
          (Verified aes key addr counter data_ auth_tag ns)
          (verify_message aes key addr counter data_ auth_tag ns)
  unfolding verify_message
  verify_message-Verified addr counter data_ auth_tag ns s l =
      elim (Option-cases (get_neighbor addr ns)) [
        | inl e ↦ rw (verify_message, e) (returns (Verified.unknown e))
        | inr (n, e) ↦ elim (Bool-cases (leb counter n.replay_counter)) [
          | inl old ↦ rw (verify_message, e, old) (returns (Verified.replayed n e (ground arith)))
          | inr new ↦
              let (tag, is, size) =
                Returns-value
                  (compute_auth_tag-total n.iv data_ (get_neighbor-short addr ns n s e) l) in
              elim (Bool-cases (same_bytes tag auth_tag)) [
                | inl same ↦
                    rw (verify_message, e, new, is, same)
                      (returns (
                        Verified.accepted n tag (set_counter addr counter ns) e (ground arith) is
                          same (get_neighbor-set_counter addr counter ns n e)
                          (λ other d. get_neighbor-set_counter_other addr other counter ns d)
                          (AreShort-set_counter addr counter ns s)))
                | inr differs ↦
                    rw (verify_message, e, new, is, differs)
                      (returns (Verified.forged n tag e (ground arith) is differs))
              ]
        ]
      ]

  -- A message that a node signs is accepted by every node that has the signer's session vector and key and
  -- has not yet accepted its counter.
  pub verify_message-sign_message :
      (s : MacSec) (n : Neighbor) (addr counter : ℕ) (data_ : List ℕ) (ns : List Neighbor)
      → length s.session_iv ≤ 16
      → length data_ ≤ 4064
      → get_neighbor addr ns ≡ some n
      → n.iv ≡ s.session_iv
      → n.replay_counter < counter
      → Returns
          (λ tag.
            Returns
              (λ (status, ns'). status ≡ pos 0)
              (verify_message aes key addr counter data_ tag ns))
          (sign_message aes key data_ s)
  unfolding sign_message verify_message
  verify_message-sign_message s n addr counter data_ ns p q e same new =
      let (tag, is, size) = Returns-value (compute_auth_tag-total s.session_iv data_ p q) in
      let fresh : leb counter n.replay_counter ≡ false = ground arith in
      let computed : compute_auth_tag aes key n.iv data_ ≡ ok tag =
        ap (λ iv. compute_auth_tag aes key iv data_) same ∙ is in
      rw is (returns (rw (verify_message, e, fresh, computed, same_bytes_self tag) (returns refl)))
