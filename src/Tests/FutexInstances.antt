-- ===== src/Tests/FutexInstances.antt =====
-- The theorems about sleepers at concrete inputs.
use lockness.Prelude.{ℕ, ◌<◌, ◌≡◌, bit_and, true, ◌⊎◌}
use lockness.Word.Bits.{complement}
use lockness.Machine.Program.{Loc}
use lockness.Machine.Futex.Duty.{must_wake, Meets}
use lockness.Machine.Futex.Changed.{IsActing, Looks}
use lockness.Bags.Mpmc.Status.{contains, sleeping, all}
use lockness.Bags.Mpmc.Sleepers as Mpmc
use lockness.Bags.Mpmc.Sleepers.Clients.{sleeping_sender, sleeping_receiver}
use lockness.Bags.Slot.Status.{send_sleeping, recv_sleeping, reservations}
use lockness.Bags.Slot.Sleepers as Slot
use lockness.Bags.Slot.Sleepers.Seen.{slot_sleeping_sender, slot_sleeping_receiver}
use lockness.Bags.Slot.Sleepers.Deadlock.{goes_on, no_deadlock}
use lockness.Tests.MpmcNights.{
  hall-IsClient, listening, listening_state, crowd-IsClient, crowded, crowded_state,
}
use lockness.Tests.SlotNights.{
  trio-AreClients, waiting, waiting_state, guests-AreClients, about_to_wake, receiver_asleep,
  both_wait, both_wait_state,
}

no_deadlock_example : (t : ℕ) × (goes_on (both_wait.last.state.thread t) ≡ true)
no_deadlock_example =
    no_deadlock guests-AreClients both_wait.reach 0 2 both_wait_state.0 both_wait_state.1

sleeping_receiver_example :
    (contains (complement 32 (listening.last.state.mem.word Loc.recv)) sleeping ≡ true)
      × (bit_and (listening.last.state.mem.word Loc.recv) (complement 32 all) ≡ 0)
    ⊎ ((t : ℕ) × (IsActing Loc.recv Mpmc.IsWord
            (Mpmc.flag Loc.recv)
            (Mpmc.alarm Loc.recv)
            (Mpmc.looked Loc.recv)
            (listening.last.state.thread t)
          ⊎ Looks Loc.recv Mpmc.IsWord
              (Mpmc.flag Loc.recv)
              (Mpmc.alarm Loc.recv)
              (Mpmc.looked Loc.recv)
              (listening.last.state.thread t)))
sleeping_receiver_example = sleeping_receiver hall-IsClient listening.reach 1 listening_state.1

sleeping_sender_example :
    (contains (crowded.last.state.mem.word Loc.send) sleeping ≡ true)
    ⊎ ((t : ℕ) × IsActing Loc.send Mpmc.IsWord
          (Mpmc.flag Loc.send)
          (Mpmc.alarm Loc.send)
          (Mpmc.looked Loc.send)
          (crowded.last.state.thread t))
sleeping_sender_example = sleeping_sender crowd-IsClient crowded.reach 0 crowded_state.0

slot_sleeping_receiver_example :
    (◌≡◌ {A = ℕ} 0 0)
    × ((about_to_wake.last.state.mem.word Loc.recv ≡ recv_sleeping)
        ⊎ ((t : ℕ) × Meets Loc.recv
              (Slot.IsWord true)
              (Slot.flag true Loc.recv)
              (Slot.alarm true Loc.recv)
              (Slot.looked true Loc.recv)
              must_wake
              (about_to_wake.last.state.thread t)))
slot_sleeping_receiver_example =
    slot_sleeping_receiver guests-AreClients about_to_wake.reach 0 receiver_asleep

slot_sleeping_sender_example :
    (contains (waiting.last.state.mem.word Loc.send) (send_sleeping true) ≡ true)
      × (0 < reservations true (waiting.last.state.mem.word Loc.send))
    ⊎ ((t : ℕ) × (IsActing Loc.send
            (Slot.IsWord true)
            (Slot.flag true Loc.send)
            (Slot.alarm true Loc.send)
            (Slot.looked true Loc.send)
            (waiting.last.state.thread t)
          ⊎ Looks Loc.send
              (Slot.IsWord true)
              (Slot.flag true Loc.send)
              (Slot.alarm true Loc.send)
              (Slot.looked true Loc.send)
              (waiting.last.state.thread t)))
slot_sleeping_sender_example = slot_sleeping_sender trio-AreClients waiting.reach 1 waiting_state.0
