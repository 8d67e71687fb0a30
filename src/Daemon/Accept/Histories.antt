-- ===== src/Daemon/Accept/Histories.antt =====
-- internal/daemon/daemon.go: the handshakes of `acceptLoop` as they come and go.
use lanclip.Base.{
  ℕ, ◌+◌, ◌-◌, ◌≤◌, ◌≡◌, refl, Bool, true, Option, List, [], ◌∷◌, Text, ltb, if◌then◌else◌, arith,
  Bool-cases, inl, inr,
}
use lanclip.Discovery.Direct.{Net}
use lanclip.Daemon.Accept.{
  accept, handle_tls, released, handle_tls-released, accept-le, max_concurrent_handshakes,
}

-- A connection arrives, or the goroutine of one ends its handshake: whether the deadline can be set and
-- the handshake succeeds, and the protocol.
pub data Move (n : Net) : Type 0 where
  arrives : List n.Network → Option n.Ip → Move n
  ends : Bool → Bool → Text → Move n

-- The tokens in the channel `handshakes`, and how many goroutines were started and have ended their
-- handshake.
pub record Load : Type 0 where
  pub busy : ℕ
  pub started : ℕ
  pub ended : ℕ

module _ (n : Net) where
  unfoldable pub move : Load → Move n → Load
  move l (arrives networks remote) =
      let (busy, starts) = accept n networks remote l.busy in
      record l { busy = busy; started = if starts then l.started + 1 else l.started }
  move l (ends deadline handshake protocol) =
      if ltb l.ended l.started
      then record l {
        busy = l.busy - released (handle_tls true deadline handshake protocol);
        ended = l.ended + 1;
      }
      else l

  unfoldable pub moves : Load → List (Move n) → Load
  moves l [] = l
  moves l (m ∷ ms) = moves (move l m) ms

  -- The tokens are those of the handshakes under way, and no more than the limit.
  pub record IsBalanced (l : Load) : Type 0 where
    pub balance : l.busy + l.ended ≡ l.started
    pub bounded : l.busy ≤ max_concurrent_handshakes

  accept-count :
      (networks : List n.Network) (remote : Option n.Ip) (busy : ℕ)
      → (accept n networks remote busy).0
        ≡ (if (accept n networks remote busy).1 then busy + 1 else busy)
  unfolding accept
  accept-count networks remote busy = ground arith

  move-IsBalanced : (l : Load) (m : Move n) → IsBalanced l → IsBalanced (move l m)
  unfolding move
  move-IsBalanced l (arrives networks remote) b =
      let count = accept-count networks remote l.busy in
      let most = accept-le n networks remote l.busy b.bounded in
      elim (Bool-cases (accept n networks remote l.busy).1) [
        | inl x ↦ record { balance = ground (arith, x, count, b.balance); bounded = most }
        | inr x ↦ record { balance = ground (arith, x, count, b.balance); bounded = most }
      ]
  move-IsBalanced l (ends deadline handshake protocol) b =
      let one = handle_tls-released deadline handshake protocol in
      elim (Bool-cases (ltb l.ended l.started)) [
        | inr x ↦ rw (x, move) b
        | inl x ↦
            rw (x, move)
              (record {
                balance = ground (arith, x, one, b.balance);
                bounded = omega (arith, one, b.bounded);
              })
      ]

  moves-IsBalanced_from : (l : Load) (ms : List (Move n)) → IsBalanced l → IsBalanced (moves l ms)
  unfolding moves
  moves-IsBalanced_from l [] b = b
  moves-IsBalanced_from l (m ∷ ms) b = moves-IsBalanced_from (move l m) ms (move-IsBalanced l m b)

  -- However connections arrive and handshakes end, in any order and with any outcomes, the tokens that are
  -- taken are as many as the handshakes under way, so that none is lost, and never more than 32.
  pub moves-IsBalanced :
      (ms : List (Move n)) → IsBalanced (moves (record { busy = 0; started = 0; ended = 0 }) ms)
  moves-IsBalanced ms =
      moves-IsBalanced_from _ ms (record { balance = refl; bounded = omega arith })
