-- ===== src/NetMsg/Order.antt =====
-- The order of the messages in the queues of src/netmsg.c.
use sapphire_os.Prelude.{
  Option-cases, List-cases, ◌≡◌, refl, sym, ap, ◌∙◌, inl, inr, Option, none, some, List, [], ◌∷◌,
  ◌++◌,
}
use sapphire_os.NetMsg.{
  NetMsg, Queues, remove_tail, add_to_transmit_q, add_to_receive_q, remove_from_transmit_q,
  remove_from_receive_q,
}

-- a call on the queues
pub data Call : Type 0 where
  add_tx : NetMsg → Call
  add_rx : NetMsg → Call
  take_tx : Call
  take_rx : Call

-- a list with one more message, or the same
abbrev pub with_taken : Option NetMsg → List NetMsg → List NetMsg
with_taken none out = out
with_taken (some msg) out = msg ∷ out

-- the messages that the calls take from the transmit queue, and the queues at the end
unfoldable pub transmitted : List Call → Queues → List NetMsg × Queues
transmitted [] q = ([], q)
transmitted (add_tx msg ∷ calls) q = transmitted calls (add_to_transmit_q msg q)
transmitted (add_rx msg ∷ calls) q = transmitted calls (add_to_receive_q msg q)
transmitted (take_tx ∷ calls) q =
    let (taken, left) = remove_from_transmit_q q in
    let (out, last) = transmitted calls left in (with_taken taken out, last)
transmitted (take_rx ∷ calls) q = transmitted calls (remove_from_receive_q q).1

-- the messages that the calls put on the transmit queue
abbrev pub added : List Call → List NetMsg
added [] = []
added (add_tx msg ∷ calls) = msg ∷ added calls
added (add_rx msg ∷ calls) = added calls
added (take_tx ∷ calls) = added calls
added (take_rx ∷ calls) = added calls

-- the messages of a queue, the oldest first
abbrev pub oldest_first : List NetMsg → List NetMsg
oldest_first [] = []
oldest_first (m ∷ rest) = oldest_first rest ++ (m ∷ [])

append_assoc : (a b c : List NetMsg) → (a ++ b) ++ c ≡ a ++ (b ++ c)
append_assoc [] b c = refl
append_assoc (m ∷ a) b c = ap (λ l. m ∷ l) (append_assoc a b c)

append_nil : (a : List NetMsg) → a ++ [] ≡ a
append_nil [] = refl
append_nil (m ∷ a) = ap (λ l. m ∷ l) (append_nil a)

-- the tail of a queue is its oldest message
remove_tail-oldest :
    (m : NetMsg) (q : List NetMsg)
    → (last : NetMsg) × (rest : List NetMsg) × (remove_tail (m ∷ q) ≡ some (last, rest))
      × (oldest_first (m ∷ q) ≡ last ∷ oldest_first rest)
unfolding remove_tail
remove_tail-oldest m [] = (m, [], refl, refl)
remove_tail-oldest m (k ∷ q) =
    let (last, rest, is, order) = remove_tail-oldest k q in
    (last, m ∷ rest, rw (remove_tail, is) refl, ap (λ l. l ++ (m ∷ [])) order)

-- what a call takes stands before what is left
take-oldest :
    (q : Queues)
    → with_taken (remove_from_transmit_q q).0 (oldest_first (remove_from_transmit_q q).1.tx_q)
      ≡ oldest_first q.tx_q
unfolding remove_from_transmit_q remove_tail
take-oldest q = elim (List-cases q.tx_q) [
  | inl empty ↦ rw (remove_from_transmit_q, empty, remove_tail) (ap oldest_first empty)
  | inr (m, rest, whole) ↦
      let (last, others, is, order) = remove_tail-oldest m rest in
      rw (remove_from_transmit_q, whole, is) (sym order)
]

take-append :
    (taken : Option NetMsg) (out rest : List NetMsg)
    → with_taken taken out ++ rest ≡ with_taken taken (out ++ rest)
take-append none out rest = refl
take-append (some m) out rest = refl

receive_keeps : (q : Queues) → (remove_from_receive_q q).1.tx_q ≡ q.tx_q
unfolding remove_from_receive_q
receive_keeps q = elim (Option-cases (remove_tail q.rx_q)) [
  | inl empty ↦ rw (remove_from_receive_q, empty) refl
  | inr (taken, is) ↦ rw (remove_from_receive_q, is) refl
]

-- Whatever calls are made, also on the other queue, the messages that they take from the transmit
-- queue, followed by those that are left there, are the ones that were there and then the ones that
-- were added, each once and in the order of their arrival.
pub transmitted-oldest_first :
    (calls : List Call) (q : Queues)
    → (transmitted calls q).0 ++ oldest_first (transmitted calls q).1.tx_q
      ≡ oldest_first q.tx_q ++ added calls
unfolding transmitted add_to_transmit_q add_to_receive_q
transmitted-oldest_first [] q = sym (append_nil (oldest_first q.tx_q))
transmitted-oldest_first (add_tx msg ∷ calls) q =
    transmitted-oldest_first calls (add_to_transmit_q msg q)
    ∙ append_assoc (oldest_first q.tx_q) (msg ∷ []) (added calls)
transmitted-oldest_first (add_rx msg ∷ calls) q =
    transmitted-oldest_first calls (add_to_receive_q msg q)
transmitted-oldest_first (take_rx ∷ calls) q =
    transmitted-oldest_first calls (remove_from_receive_q q).1
    ∙ ap (λ l. oldest_first l ++ added calls) (receive_keeps q)
transmitted-oldest_first (take_tx ∷ calls) q =
    let (taken, left) = remove_from_transmit_q q in
    let (out, last) = transmitted calls left in
    take-append taken out (oldest_first last.tx_q)
    ∙ ap (with_taken taken) (transmitted-oldest_first calls left)
    ∙ sym (take-append taken (oldest_first left.tx_q) (added calls))
    ∙ ap (λ l. l ++ added calls) (take-oldest q)
