-- ===== src/Bags/Mpmc/Sleepers/Words.antt =====
-- What the accesses of bags/src/mpmc.rs do to the flag SLEEPING.
use lockness.Prelude.{
  ℕ, ◌^◌, ◌<◌, bit_and, bit_or, ◌≡◌, refl, ap₂, ◌∙◌, true, false, not, ◌&&◌, ◌||◌, ltb, arith,
}
use lockness.Word.Bits.{
  test_bit, complement, complement-lt, test_bit-or, test_bit-and, test_bit-complement, bit_or-lt,
  bit_and-le, word_ext, test_bit-zero,
}
use lockness.Machine.Program.{Loc}
use lockness.Bags.Mpmc.Status.{sleeping, counterparty_dead, all, contains}
use lockness.Bags.Mpmc.Status.Flags.{contains-flag}
use lockness.Bags.Mpmc.Sleepers.{flag, alarm}

flag-send : (w : ℕ) → w < 2 ^ 32 → flag Loc.send w ≡ test_bit w 1
flag-send w fits = contains-flag 32 w 1 fits (omega arith)

flag-recv : (w : ℕ) → w < 2 ^ 32 → flag Loc.recv w ≡ not (test_bit w 1)
flag-recv w fits =
    contains-flag 32 (complement 32 w) 1 (complement-lt 32 w) (omega arith)
    ∙ test_bit-complement 32 1 w (omega arith) fits

bits_of_status :
    (test_bit sleeping 1 ≡ true)
    × (test_bit all 1 ≡ true)
    × (test_bit (complement 32 sleeping) 1 ≡ false)
    × (test_bit (complement 32 counterparty_dead) 1 ≡ true)
    × (test_bit (complement 32 all) 1 ≡ false)
unfolding test_bit complement
bits_of_status = (refl, refl, refl, refl, refl)

pub swapped-flag-recv : (c : ℕ) → c < 2 ^ 32 → flag Loc.recv (bit_or c all) ≡ false
swapped-flag-recv c fits = ground (
  arith,
  flag-recv (bit_or c all) (bit_or-lt 32 c all fits (omega arith)),
  test_bit-or 1 c all,
  bits_of_status,
)

pub zero-flag-send : flag Loc.send 0 ≡ false
unfolding contains
zero-flag-send = refl

pub alarm-recv : (l : Loc) (w : ℕ) → alarm l w ≡ true → l ≡ Loc.recv
alarm-recv Loc.send w h = cc
alarm-recv Loc.recv w h = refl
alarm-recv Loc.num_senders w h = cc
alarm-recv Loc.num_receivers w h = cc

module _ (w : ℕ) (fits : w < 2 ^ 32) where
  pub or-flag-send :
      (m : ℕ) → m < 2 ^ 32 → flag Loc.send w ≡ true → flag Loc.send (bit_or w m) ≡ true
  or-flag-send m m_fits h = ground (
    arith,
    flag-send w fits,
    flag-send (bit_or w m) (bit_or-lt 32 w m fits m_fits),
    test_bit-or 1 w m,
  )

  pub or_sleeping-flag-send : flag Loc.send (bit_or w sleeping) ≡ true
  or_sleeping-flag-send = ground (
    arith,
    flag-send (bit_or w sleeping) (bit_or-lt 32 w sleeping fits (omega arith)),
    test_bit-or 1 w sleeping,
    bits_of_status,
  )

  and-lt : (m : ℕ) → bit_and w m < 2 ^ 32
  and-lt m = omega (arith, bit_and-le 32 w m fits)

  -- A release clears the flag, since it clears all status bits.
  pub released-flag-send :
      (c : ℕ) → flag Loc.send (bit_and w (bit_and c (complement 32 all))) ≡ false
  released-flag-send c = ground (
    arith,
    flag-send (bit_and w (bit_and c (complement 32 all))) (and-lt (bit_and c (complement 32 all))),
    test_bit-and 1 w (bit_and c (complement 32 all)),
    test_bit-and 1 c (complement 32 all),
    bits_of_status,
  )

  pub claim-flag-recv : flag Loc.recv w ≡ true → flag Loc.recv (bit_and w all) ≡ true
  claim-flag-recv h = ground (
    arith,
    flag-recv w fits,
    flag-recv (bit_and w all) (and-lt all),
    test_bit-and 1 w all,
    bits_of_status,
  )

  pub mark-flag-recv : flag Loc.recv (bit_and w (complement 32 sleeping)) ≡ true
  mark-flag-recv = ground (
    arith,
    flag-recv (bit_and w (complement 32 sleeping)) (and-lt (complement 32 sleeping)),
    test_bit-and 1 w (complement 32 sleeping),
    bits_of_status,
  )

  pub dead-flag-recv : flag Loc.recv (bit_and w (complement 32 counterparty_dead)) ≡ flag Loc.recv w
  dead-flag-recv = ground (
    arith,
    flag-recv w fits,
    flag-recv (bit_and w (complement 32 counterparty_dead))
        (and-lt (complement 32 counterparty_dead)),
    test_bit-and 1 w (complement 32 counterparty_dead),
    bits_of_status,
  )

  -- A commit clears the flag.
  pub commit-flag-recv : (c : ℕ) → c < 2 ^ 32 → flag Loc.recv (bit_or w (bit_or c all)) ≡ false
  commit-flag-recv c c_fits = ground (
    arith,
    flag-recv (bit_or w (bit_or c all))
        (bit_or-lt 32 w (bit_or c all) fits (bit_or-lt 32 c all c_fits (omega arith))),
    test_bit-or 1 w (bit_or c all),
    test_bit-or 1 c all,
    bits_of_status,
  )

  -- After a claim no cell is committed.
  claim_none : bit_and (bit_and w all) (complement 32 all) ≡ 0
  claim_none =
      word_ext 32 _ 0
        (omega (arith, bit_and-le 32 (bit_and w all) (complement 32 all) (and-lt all), and-lt all))
        (omega arith)
        (λ i lt. ground (
          arith,
          test_bit-and i (bit_and w all) (complement 32 all),
          test_bit-and i w all,
          test_bit-complement 32 i all lt (omega arith),
          test_bit-zero i,
        ))

  pub claim-alarm-recv : alarm Loc.recv (bit_and w all) ≡ false
  claim-alarm-recv = ground (arith, claim_none)

  -- Without its first status bit, the word has the same cells.
  dead_cells :
      bit_and (bit_and w (complement 32 counterparty_dead)) (complement 32 all)
      ≡ bit_and w (complement 32 all)
  dead_cells =
      word_ext 32 _ _
        (omega (
          arith,
          bit_and-le 32 (bit_and w (complement 32 counterparty_dead)) (complement 32 all)
              (and-lt _),
          and-lt (complement 32 counterparty_dead),
        ))
        (and-lt _)
        (λ i lt.
          let three : test_bit all i ≡ (test_bit counterparty_dead i || test_bit sleeping i) =
            test_bit-or i 1 2 in
          ground (
            arith,
            three,
            test_bit-and i (bit_and w (complement 32 counterparty_dead)) (complement 32 all),
            test_bit-and i w (complement 32 counterparty_dead),
            test_bit-and i w (complement 32 all),
            test_bit-complement 32 i all lt (omega arith),
            test_bit-complement 32 i counterparty_dead lt (omega arith),
          ))

  pub dead-alarm-recv :
      alarm Loc.recv (bit_and w (complement 32 counterparty_dead)) ≡ alarm Loc.recv w
  dead-alarm-recv = ap₂ (λ b m. b && ltb 0 m) dead-flag-recv dead_cells

  pub commit-alarm-recv : (c : ℕ) → c < 2 ^ 32 → alarm Loc.recv (bit_or w (bit_or c all)) ≡ false
  commit-alarm-recv c c_fits = rw (commit-flag-recv c c_fits) refl
