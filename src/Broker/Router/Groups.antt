-- ===== src/Broker/Router/Groups.antt =====
-- internal/broker/router.go: consumer groups share their messages in turn.
use aqueduct.Base.{
  refl, arith, false, get_elem?, ◌-◌, ◌==◌, ◌%◌, ◌≡◌, length, zero, ◌^◌, suc, ◌<◌, ◌+◌, ℕ,
}
use aqueduct.Broker.Router.{Group, choose}

turn_back : (c : ℕ) → c + 1 < 2 ^ 64 → ((c + 1) % 2 ^ 64 + 2 ^ 64 - 1) % 2 ^ 64 ≡ c
turn_back c h = let whole : (c + 1) % 2 ^ 64 ≡ c + 1 = omega arith in rw whole (omega arith)

-- One message to a group with members.
choose_next :
    (g : Group)
    → 0 < length g.members
    → g.counter + 1 < 2 ^ 64
    → (choose g).1 ≡ get_elem? g.members (g.counter % length g.members)
unfolding choose
choose_next g some_member h =
    let filled : (length g.members == 0) ≡ false = ground (arith, some_member) in
    rw (filled, choose) (rw (turn_back g.counter h) refl)

counted :
    (g : Group)
    → 0 < length g.members
    → g.counter + 1 < 2 ^ 64
    → (choose g).0 ≡ record g { counter = g.counter + 1 }
unfolding choose
counted g some_member h =
    let filled : (length g.members == 0) ≡ false = ground (arith, some_member) in
    let whole : (g.counter + 1) % 2 ^ 64 ≡ g.counter + 1 = omega arith in
    rw (filled, choose) (rw whole refl)

-- The group after so many messages.
abbrev pub after_messages : ℕ → Group → Group
after_messages zero g = g
after_messages (suc n) g = after_messages n (choose g).0

-- While a group with members has sent fewer than 2 ^ 64 - 1 messages, after i further messages the
-- next one goes to the member at position (counter + i) modulo the number of members: the members
-- take turns.
pub choose_turns :
    (i : ℕ) (g : Group)
    → 0 < length g.members
    → g.counter + i + 1 < 2 ^ 64
    → (choose (after_messages i g)).1 ≡ get_elem? g.members ((g.counter + i) % length g.members)
choose_turns zero g some_member h =
    let same : g.counter + 0 ≡ g.counter = omega arith in
    rw same (choose_next g some_member (omega (arith, h)))
choose_turns (suc i) g some_member h =
    let moved : g.counter + suc i ≡ g.counter + 1 + i = omega arith in
    rw (moved, counted g some_member (omega (arith, h)))
      (choose_turns i (record g { counter = g.counter + 1 }) some_member (omega (arith, h)))
