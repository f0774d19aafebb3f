-- ===== src/Bags/Slot/Status/Recv.antt =====
-- The parts of the word `recv` of bags/src/slot.rs: three flags.
use lockness.Prelude.{bit_and, bit_or, ◌≡◌, refl, Bool, true, false}
use lockness.Bags.Mpmc.Status.{contains}
use lockness.Bags.Slot.Status.{committed, recv_sleeping, sender_dead}
use lockness.Bags.Slot.Status.Flags.{recv_word}

pub contains-committed : (t s d : Bool) → contains (recv_word t s d) committed ≡ t
unfolding contains
contains-committed true true true = refl
contains-committed true true false = refl
contains-committed true false true = refl
contains-committed true false false = refl
contains-committed false true true = refl
contains-committed false true false = refl
contains-committed false false true = refl
contains-committed false false false = refl

pub contains-sender_dead : (t s d : Bool) → contains (recv_word t s d) sender_dead ≡ d
unfolding contains
contains-sender_dead true true true = refl
contains-sender_dead true true false = refl
contains-sender_dead true false true = refl
contains-sender_dead true false false = refl
contains-sender_dead false true true = refl
contains-sender_dead false true false = refl
contains-sender_dead false false true = refl
contains-sender_dead false false false = refl

pub and-sender_dead :
    (t s d : Bool) → bit_and (recv_word t s d) sender_dead ≡ recv_word false false d
and-sender_dead true true true = refl
and-sender_dead true true false = refl
and-sender_dead true false true = refl
and-sender_dead true false false = refl
and-sender_dead false true true = refl
and-sender_dead false true false = refl
and-sender_dead false false true = refl
and-sender_dead false false false = refl

pub or-sender_dead : (t s d : Bool) → bit_or (recv_word t s d) sender_dead ≡ recv_word t s true
or-sender_dead true true true = refl
or-sender_dead true true false = refl
or-sender_dead true false true = refl
or-sender_dead true false false = refl
or-sender_dead false true true = refl
or-sender_dead false true false = refl
or-sender_dead false false true = refl
or-sender_dead false false false = refl

pub contains-recv_sleeping : (t s d : Bool) → contains (recv_word t s d) recv_sleeping ≡ s
unfolding contains
contains-recv_sleeping true true true = refl
contains-recv_sleeping true true false = refl
contains-recv_sleeping true false true = refl
contains-recv_sleeping true false false = refl
contains-recv_sleeping false true true = refl
contains-recv_sleeping false true false = refl
contains-recv_sleeping false false true = refl
contains-recv_sleeping false false false = refl

pub or-recv_sleeping : (t s d : Bool) → bit_or (recv_word t s d) recv_sleeping ≡ recv_word t true d
or-recv_sleeping true true true = refl
or-recv_sleeping true true false = refl
or-recv_sleeping true false true = refl
or-recv_sleeping true false false = refl
or-recv_sleeping false true true = refl
or-recv_sleeping false true false = refl
or-recv_sleeping false false true = refl
or-recv_sleeping false false false = refl
