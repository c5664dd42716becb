-- ===== src/State/Cooldown.antt =====
-- The faucet's cooldown (`WorldState::can_faucet` and `WorldState::mark_faucet`).
use vela_network.Common.{
  ℕ, ◌+◌, ◌-◌, ◌≤◌, ◌<◌, ◌≡◌, true, leb, Text, arith, sub64, sub64-exact, u64_mod, ite,
}
use vela_network.Common.Dict.{lookup-insert, text_discrete}
use vela_network.State.{WorldState, can_faucet, mark_faucet, faucet_cooldown_secs}

-- After a grant at `now` that address waits until 24 hours have passed, on a clock of 64 bits that
-- does not run backwards; for every other address nothing changes.
pub can_faucet-mark_faucet :
    (ws : WorldState) (now later : ℕ) (granted asked : Text)
    → now ≤ later
    → later < u64_mod
    → can_faucet later (mark_faucet now ws granted) asked
      ≡ ite
          (text_discrete asked granted)
          (leb (now + faucet_cooldown_secs) later)
          (can_faucet later ws asked)
unfolding can_faucet mark_faucet
can_faucet-mark_faucet ws now later granted asked order bound =
    ground
      (arith, lookup-insert asked granted now ws.faucet_last, sub64-exact later now order bound)

-- If the clock is set back, by less than 2 ^ 64 less the cooldown, the subtraction wraps and the
-- cooldown is over at once.
can_faucet-clock_back :
    (ws : WorldState) (now later : ℕ) (granted : Text)
    → later < now
    → now < later + (u64_mod - faucet_cooldown_secs)
    → now < u64_mod
    → can_faucet later (mark_faucet now ws granted) granted ≡ true
unfolding can_faucet mark_faucet sub64
can_faucet-clock_back ws now later granted back near bound =
    ground (arith, lookup-insert granted granted now ws.faucet_last)
