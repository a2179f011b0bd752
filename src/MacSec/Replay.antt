-- ===== src/MacSec/Replay.antt =====
-- A sequence of received frames: no counter of a neighbour is accepted twice.
use sapphire_os.Prelude.{
  ◌==◌, if◌then◌else◌, eq→==, ==→eq, Bool-cases, length, is_neg, inc, ℤ, ◌>>=◌, Returns-bind,
  Returns-mono, Run, Returns, ok, returns, ℕ, ◌≤◌, ◌<◌, ◌≡◌, refl, sym, ◌∙◌, ◌≢◌, inl, inr, some,
  List, [], ◌∷◌, arith,
}
use sapphire_os.Crypt.{Aes}
use sapphire_os.Crypt.Cbc.{IsBlockCipher}
use sapphire_os.MacSec.{Neighbor, get_neighbor, verify_message}
use sapphire_os.MacSec.Verify.{
  AreShort, Verified, verify_message-Verified, unknown, replayed, forged, accepted,
}

-- what the receiver passes to the check
pub record Frame : Type 0 where
  pub short_addr : ℕ
  pub counter : ℕ
  pub payload : List ℕ
  pub auth_tag : List ℕ

-- the address and the counter of an accepted frame
pub record Accepted : Type 0 where
  pub from : ℕ
  pub counter : ℕ

abbrev pub FitAll : List Frame → Type 0
FitAll [] = Unit
FitAll (f ∷ fs) = (length f.payload ≤ 4064) × FitAll fs

-- later frames from the same address have higher counters
abbrev pub After : Accepted → List Accepted → Type 0
After a [] = Unit
After a (b ∷ log) = (b.from ≡ a.from → a.counter < b.counter) × After a log

abbrev pub Increasing : List Accepted → Type 0
Increasing [] = Unit
Increasing (a ∷ log) = After a log × Increasing log

-- each accepted counter is above that of its neighbour before the sequence
abbrev Above : List Neighbor → List Accepted → Type 0
Above ns [] = Unit
Above ns (b ∷ log) =
    ((n : Neighbor) → get_neighbor b.from ns ≡ some n → n.replay_counter < b.counter) × Above ns log

-- the counters of a table do not go back
Advanced : List Neighbor → List Neighbor → Type 0
Advanced ns ns' =
    (addr : ℕ) (n : Neighbor)
    → get_neighbor addr ns ≡ some n
    → (n' : Neighbor) × (get_neighbor addr ns' ≡ some n') × (n.replay_counter ≤ n'.replay_counter)

Above-Advanced :
    (ns ns' : List Neighbor) (log : List Accepted) → Advanced ns ns' → Above ns' log → Above ns log
unfolding Advanced
Above-Advanced ns ns' [] a h = tt
Above-Advanced ns ns' (b ∷ log) a h = (
  λ n e. let (n', e', l) = a b.from n e in omega (arith, l, h.0 n' e'),
  Above-Advanced ns ns' log a h.1,
)

Above-After :
    (ns : List Neighbor) (a : Accepted) (n : Neighbor) (log : List Accepted)
    → get_neighbor a.from ns ≡ some n
    → n.replay_counter ≡ a.counter
    → Above ns log
    → After a log
Above-After ns a n [] e c h = tt
Above-After ns a n (b ∷ log) e c h =
    (λ same. omega (arith, c, h.0 n (rw same e)), Above-After ns a n log e c h.1)

elim_some :
    (n m : Neighbor) {counter : ℕ}
    → some n ≡ some m
    → n.replay_counter < counter
    → m.replay_counter < counter
elim_some n m e l = ground (arith, e, l)

accepted-Advanced :
    (addr counter : ℕ) (n : Neighbor) (ns ns' : List Neighbor)
    → get_neighbor addr ns ≡ some n
    → n.replay_counter < counter
    → get_neighbor addr ns' ≡ some (record n { replay_counter = counter })
    → ((other : ℕ) → other ≢ addr → get_neighbor other ns' ≡ get_neighbor other ns)
    → Advanced ns ns'
unfolding Advanced
accepted-Advanced addr counter n ns ns' e o now others other m h =
    elim (Bool-cases (other == addr)) [
      | inl same ↦
          let is = ==→eq other addr same in
          (
            record n { replay_counter = counter },
            rw is now,
            omega (arith, elim_some n m (sym e ∙ rw (← is) h) o),
          )
      | inr differs ↦ (m, others other (λ is. cc (eq→== other addr is)) ∙ h, omega arith)
    ]

module _ (aes : Aes) (key : List ℕ) where
  -- one frame after the other, with the log of those that were accepted
  unfoldable pub receive_all : List Frame → List Neighbor → Run (List Accepted × List Neighbor)
  receive_all [] ns = ok ([], ns)
  receive_all (f ∷ fs) ns =
      verify_message aes key f.short_addr f.counter f.payload f.auth_tag ns >>= λ (status, ns').
      receive_all fs ns' >>= λ (log, last). ok (
        if is_neg status
        then (log, last)
        else (record { from = f.short_addr; counter = f.counter } ∷ log, last))

  module _ (c : IsBlockCipher aes) where
    -- what is known of the log of the frames that follow
    abbrev Logged : List Neighbor → List Accepted × List Neighbor → Type 0
    Logged ns (log, last) = Increasing log × Above ns log

    after_check :
        (f : Frame) (fs : List Frame) (ns : List Neighbor)
        → AreShort ns
        → ((ns' : List Neighbor) → AreShort ns' → Returns (Logged ns') (receive_all fs ns'))
        → (out : ℤ × List Neighbor)
        → Verified aes key f.short_addr f.counter f.payload f.auth_tag ns out
        → Returns (Logged ns) (
            receive_all fs out.1 >>= λ (log, last). ok (
              if is_neg out.0
              then (log, last)
              else (record { from = f.short_addr; counter = f.counter } ∷ log, last)))
    after_check f fs ns s rest _ (unknown e) = Returns-bind (rest ns s) λ out p. returns p
    after_check f fs ns s rest _ (replayed n e o) = Returns-bind (rest ns s) λ out p. returns p
    after_check f fs ns s rest _ (forged n tag e o is d) =
        Returns-bind (rest ns s) λ out p. returns p
    after_check f fs ns s rest _ (accepted n tag ns' e o is d now others short) =
        Returns-bind (rest ns' short) λ (log, last) (inc, above). returns (
          (
            Above-After ns' (record { from = f.short_addr; counter = f.counter })
                (record n { replay_counter = f.counter }) log now refl above,
            inc,
          ),
          (
            λ m h. elim_some n m (sym e ∙ h) o,
            Above-Advanced ns ns' log
                (accepted-Advanced f.short_addr f.counter n ns ns' e o now others) above,
          ),
        )

    receive_all-Above :
        (fs : List Frame) (ns : List Neighbor)
        → AreShort ns
        → FitAll fs
        → Returns (Logged ns) (receive_all fs ns)
    unfolding receive_all
    receive_all-Above [] ns s l = returns (tt, tt)
    receive_all-Above (f ∷ fs) ns s l =
        Returns-bind
          (verify_message-Verified aes c key f.short_addr f.counter f.payload f.auth_tag ns s l.0)
          (after_check f fs ns s λ ns' s'. receive_all-Above fs ns' s' l.1)

    -- Over any sequence of frames of at most 4064 bytes, with a table whose vectors are not longer than a
    -- key, the checks end, and the accepted counters of each address strictly increase: none is accepted
    -- a second time.
    pub receive_all-Increasing :
        (fs : List Frame) (ns : List Neighbor)
        → AreShort ns
        → FitAll fs
        → Returns (λ (log, ns'). Increasing log) (receive_all fs ns)
    receive_all-Increasing fs ns s l = Returns-mono (receive_all-Above fs ns s l) λ out p. p.0
