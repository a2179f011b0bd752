-- ===== src/Crypt/Cut.antt =====
-- Every message is cut into full blocks and a last block, as the message authentication code of
-- src/crypt.c cuts it.
use mathlib.Core.List.{append_assoc}
use sapphire_os.Prelude.{
  leb, Bool-cases, length, length-append, split_at-total, Returns-mono, Returns, ℕ, zero, suc, ◌+◌,
  ◌*◌, ◌≤◌, ◌<◌, ◌≡◌, refl, sym, ap, ◌∙◌, ◌⊎◌, inl, inr, List, [], ◌∷◌, ◌++◌, arith,
}
use sapphire_os.Crypt.{Aes, xcbc_mac_96}
use sapphire_os.Crypt.Cbc.{IsBlockCipher}
use mathlib.Core.Path.{subst₂}
use sapphire_os.Crypt.Mac.{Full, joined, xcbc_mac_96-rfc_tag}

length-joined : (blocks : List (List ℕ)) → Full blocks → length (joined blocks) ≡ length blocks * 16
length-joined [] f = refl
length-joined (b ∷ bs) f = omega (arith, length-append b (joined bs), length-joined bs f.1, f.0)

-- a message cut into full blocks and its last block
record Cut (m : List ℕ) : Type 0 where
  pub blocks : List (List ℕ)
  pub last : List ℕ
  pub full : Full blocks
  pub short : length last ≤ 16
  pub some_left : (0 < length last) ⊎ (length blocks ≡ 0)
  pub whole : m ≡ joined blocks ++ last

cut : (k : ℕ) (m : List ℕ) → length m ≤ k * 16 → Cut m
cut zero m l = record {
  blocks = [];
  last = m;
  full = tt;
  short = omega arith;
  some_left = inr refl;
  whole = refl;
}
cut (suc k) m l = elim (Bool-cases (leb (length m) 16)) [
  | inl e ↦ record {
    blocks = [];
    last = m;
    full = tt;
    short = ground arith;
    some_left = inr refl;
    whole = refl;
  }
  | inr e ↦
      let (b, rest, is, size) = split_at-total 16 m (ground arith) in
      let total = ap length is in
      let counted = length-append b rest in
      let more : 16 < length m = ground arith in
      let c = cut k rest (omega (arith, total, counted, size)) in
      let left : 0 < length c.last = elim c.some_left [
        | inl p ↦ p
        | inr none_full ↦ omega (
          arith,
          total,
          counted,
          size,
          more,
          ap length c.whole,
          none_full,
          length-append (joined c.blocks) c.last,
          length-joined c.blocks c.full,
        )
      ] in
      record {
        blocks = b ∷ c.blocks;
        last = c.last;
        full = (size, c.full);
        short = c.short;
        some_left = inl left;
        whole = is ∙ ap (λ r. b ++ r) c.whole ∙ sym (append_assoc b (joined c.blocks) c.last);
      }
]

-- every message of at most 4080 bytes has a tag of 12 bytes
pub xcbc_mac_96-length :
    (aes : Aes)
    → IsBlockCipher aes
    → (k m : List ℕ) → length m ≤ 4080
    → Returns (λ auth. length auth ≡ 12) (xcbc_mac_96 aes k m (length m))
xcbc_mac_96-length aes c k m l =
    let parts = cut 255 m (omega arith) in
    let size : length m ≡ length parts.blocks * 16 + length parts.last = omega (
      arith,
      ap length parts.whole,
      length-append (joined parts.blocks) parts.last,
      length-joined parts.blocks parts.full,
    ) in
    subst₂ (λ a n. Returns (λ auth. length auth ≡ 12) (xcbc_mac_96 aes k a n)) (sym parts.whole)
      (sym size)
      (Returns-mono
        (xcbc_mac_96-rfc_tag aes c k parts.blocks parts.last parts.full parts.short parts.some_left
          (omega (arith, size)))
        λ auth p. p.0)
