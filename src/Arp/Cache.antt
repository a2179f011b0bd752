-- ===== src/Arp/Cache.antt =====
-- What the cache of gateway/arp.c answers.
use sapphire_os.Prelude.{
  ltb, ◌==◌, Bool-cases, length, ℕ, zero, suc, ◌+◌, ◌≤◌, ◌<◌, ◌≡◌, refl, ◌⊎◌, inl, inr, Bool, true,
  false, none, some, List, [], ◌∷◌, arith,
}
use sapphire_os.Ip.{Addr, IpState, addr_compare, is_zeroes, check_broadcast}
use sapphire_os.Arp.{
  Entry, Packet, max_age_ticks, oper_request, oper_reply, find_address, get_address, find_oldest,
  replace, first_age, add_entry, recv, age_entry, age_all,
}

addr_compare_self : (ip : Addr) → addr_compare ip ip ≡ true
unfolding addr_compare
addr_compare_self ip = ground arith

find_oldest-lt :
    (i oldest age n : ℕ) (rest : List Entry)
    → oldest < n
    → i + length rest ≤ n
    → find_oldest i oldest age rest < n
unfolding find_oldest
find_oldest-lt i oldest age n [] l m = l
find_oldest-lt i oldest age n (e ∷ rest) l m = elim (Bool-cases (ltb age e.age)) [
  | inl h ↦ rw h (find_oldest-lt (i + 1) i e.age n rest (omega arith) (omega arith))
  | inr h ↦ rw h (find_oldest-lt (i + 1) oldest age n rest l (omega arith))
]

find_address-replace :
    (ip : Addr) (i : ℕ) (new : Entry) (cache : List Entry)
    → i < length cache
    → new.ip_addr ≡ ip
    → find_address ip cache ≡ none
    → find_address ip (replace i new cache) ≡ some new.eth_addr
unfolding find_address
find_address-replace ip i new [] l is e = absurd (omega arith)
find_address-replace ip zero new (x ∷ cache) l is e = rw (is, addr_compare_self ip) refl
find_address-replace ip (suc i) new (x ∷ cache) l is e =
    elim (Bool-cases (addr_compare ip x.ip_addr)) [
      | inl h ↦ let found : some x.eth_addr ≡ none = rw (← e, find_address, h) refl in cc found
      | inr h ↦
          rw h
            (find_address-replace ip i new cache (omega arith) is (rw (← e, find_address, h) refl))
    ]

-- After a reply from an address that is not a broadcast address and is not in the cache, which has room
-- for an entry at least, a search for the address gives the hardware address of the reply.
pub get_address-recv :
    (has_bridge : Addr → Bool) (mac : List ℕ) (s : IpState) (arp : Packet) (cache : List Entry)
    → arp.oper ≡ oper_reply
    → check_broadcast arp.spa s ≡ false
    → find_address arp.spa cache ≡ none
    → 0 < length cache
    → get_address arp.spa s (recv has_bridge mac s arp cache).0 ≡ some arp.sha
unfolding get_address recv add_entry
get_address-recv has_bridge mac s arp cache op b e l =
    let place = find_oldest-lt 0 0 (first_age cache) (length cache) cache l (omega arith) in
    rw (op, b)
      (find_address-replace arp.spa (find_oldest 0 0 (first_age cache) cache)
        (record { eth_addr = arp.sha; ip_addr = arp.spa; age = 0 }) cache place refl e)

-- an entry that is old has no address
abbrev pub IsClean : Entry → Type 0
IsClean e = max_age_ticks ≤ e.age → is_zeroes e.ip_addr ≡ true

abbrev pub AreClean : List Entry → Type 0
AreClean [] = Unit
AreClean (e ∷ cache) = IsClean e × AreClean cache

IsClean-age_entry : (e : Entry) → IsClean e → IsClean (age_entry e)
unfolding age_entry is_zeroes
IsClean-age_entry e c = ground (arith, c)

AreClean-replace :
    (i : ℕ) (new : Entry) (cache : List Entry)
    → IsClean new
    → AreClean cache
    → AreClean (replace i new cache)
AreClean-replace i new [] n c = tt
AreClean-replace zero new (e ∷ cache) n c = (n, c.1)
AreClean-replace (suc i) new (e ∷ cache) n c = (c.0, AreClean-replace i new cache n c.1)

AreClean-age_all : (cache : List Entry) → AreClean cache → AreClean (age_all cache)
unfolding age_all
AreClean-age_all [] c = tt
AreClean-age_all (e ∷ cache) c = (IsClean-age_entry e c.0, AreClean-age_all cache c.1)

AreClean-recv :
    (has_bridge : Addr → Bool) (mac : List ℕ) (s : IpState) (arp : Packet) (cache : List Entry)
    → AreClean cache
    → AreClean (recv has_bridge mac s arp cache).0
unfolding recv add_entry
AreClean-recv has_bridge mac s arp cache c = elim (Bool-cases (arp.oper == oper_request)) [
  | inl h ↦ rw h c
  | inr h ↦ elim (Bool-cases (arp.oper == oper_reply)) [
    | inl k ↦
        rw (h, k)
          (AreClean-replace (find_oldest 0 0 (first_age cache) cache)
            (record { eth_addr = arp.sha; ip_addr = arp.spa; age = 0 }) cache
            (λ l. absurd (omega arith)) c)
    | inr k ↦ rw (h, k) c
  ]
]

-- `n` rounds of the ageing
abbrev pub age_times : ℕ → List Entry → List Entry
age_times zero cache = cache
age_times (suc n) cache = age_times n (age_all cache)

-- entries that are at least so old
abbrev AtLeast : ℕ → List Entry → Type 0
AtLeast n [] = Unit
AtLeast n (e ∷ cache) = ((n ≤ e.age) ⊎ (max_age_ticks ≤ e.age)) × AtLeast n cache

AtLeast-age_all : (n : ℕ) (cache : List Entry) → AtLeast n cache → AtLeast (n + 1) (age_all cache)
unfolding age_all age_entry
AtLeast-age_all n [] a = tt
AtLeast-age_all n (e ∷ cache) a = (ground (arith, a.0), AtLeast-age_all n cache a.1)

other : (a b : Addr) → is_zeroes a ≡ false → is_zeroes b ≡ true → addr_compare a b ≡ false
unfolding is_zeroes addr_compare
other a b z w = ground (arith, z, w)

find_address-old :
    (ip : Addr) (cache : List Entry)
    → is_zeroes ip ≡ false
    → AreClean cache
    → AtLeast max_age_ticks cache
    → find_address ip cache ≡ none
unfolding find_address
find_address-old ip [] z c a = refl
find_address-old ip (e ∷ cache) z c a =
    let zero_addr : is_zeroes e.ip_addr ≡ true = c.0 (elim a.0 [ inl l ↦ l | inr l ↦ l ]) in
    rw (other ip e.ip_addr z zero_addr) (find_address-old ip cache z c.1 a.1)

age_times-old :
    (ip : Addr) (n k : ℕ) (cache : List Entry)
    → is_zeroes ip ≡ false
    → AreClean cache
    → AtLeast k cache
    → max_age_ticks ≤ k + n
    → find_address ip (age_times n cache) ≡ none
age_times-old ip zero k cache z c a l = find_address-old ip cache z c (weaken cache a)
  where
    weaken : (xs : List Entry) → AtLeast k xs → AtLeast max_age_ticks xs
    weaken [] b = tt
    weaken (e ∷ xs) b = (ground (arith, b.0), weaken xs b.1)
age_times-old ip (suc n) k cache z c a l =
    age_times-old ip n (k + 1) (age_all cache) z (AreClean-age_all cache c)
      (AtLeast-age_all k cache a) (omega arith)

-- After 100 rounds of the ageing or more with no packet between them, an address other than 0.0.0.0 and
-- the broadcast address is not found, if the old entries of the cache had no address before.
pub get_address-age_times :
    (ip : Addr) (s : IpState) (n : ℕ) (cache : List Entry)
    → AreClean cache
    → is_zeroes ip ≡ false
    → check_broadcast ip s ≡ false
    → max_age_ticks ≤ n
    → get_address ip s (age_times n cache) ≡ none
unfolding get_address
get_address-age_times ip s n cache c z b l =
    rw b (age_times-old ip n 0 cache z c (any cache) (omega arith))
  where
    any : (xs : List Entry) → AtLeast 0 xs
    any [] = tt
    any (e ∷ xs) = (inl (omega arith), any xs)
