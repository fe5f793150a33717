-- ===== src/ScanServer/Scans/Numbering.antt =====
-- The DIIDs of the messages that the stubs and steps of a scan yield
-- (scan_server/scan_server/scan_stubs.py and scans.py).
pub mod Yields
pub mod Steps
pub mod Runs
pub mod Flights
pub mod Classes
use bec.Prelude.{
  ℕ, zero, suc, String, Option, none, some, Bool, true, false, List, [], ◌∷◌, ◌++◌, ◌≡◌, refl, sym,
  ◌∙◌, ap, ◌==◌, string_eq, append-nil, append_assoc, if◌then◌else◌, arith,
}
use bec.Prelude.Dict.{Dict, lookup, insert, has, lookup-insert}
use bec.ScanServer.Scans.Effects.{
  modify, yield_none, Field, number, Message, Request, Settings, Run, merge, fail, pure,
}
use bec.ScanServer.Scans.Stubs
use bec.ScanServer.Scans.Hoare.{Keeps, On}

-- The numbers below n.
abbrev pub upto : ℕ → List ℕ
upto zero = []
upto (suc n) = upto n ++ n ∷ []

-- The DIIDs of n messages that are numbered from 0 on.
abbrev pub diids_upto : ℕ → List (Option ℕ)
diids_upto zero = []
diids_upto (suc n) = diids_upto n ++ some n ∷ []

module _ {V : Type 0} where
  abbrev pub number_in : Option (Field V) → List ℕ
  number_in (some (number n)) = n ∷ []
  number_in _ = []

  abbrev pub number_or_none : Option (Field V) → Option ℕ
  number_or_none (some (number n)) = some n
  number_or_none _ = none

  -- The DIID of a message, none where it has none.
  abbrev pub diid_of : Message V → List (Option ℕ)
  diid_of m = number_or_none (lookup "DIID" m.metadata) ∷ []

  -- What f finds in the messages yielded, in their order.
  abbrev pub collect : {B : Type 0} → (Message V → List B) → List (Option (Message V)) → List B
  collect f [] = []
  collect f (none ∷ ms) = collect f ms
  collect f (some m ∷ ms) = f m ++ collect f ms

  pub collect-append :
      {B : Type 0} (f : Message V → List B) (ms ns : List (Option (Message V)))
      → collect f (ms ++ ns) ≡ collect f ms ++ collect f ns
  collect-append f [] ns = refl
  collect-append f (none ∷ ms) ns = collect-append f ms ns
  collect-append f (some m ∷ ms) ns = rw (collect-append f ms ns, append_assoc)

  pub collect-append_one :
      {B : Type 0} (f : Message V → List B) (ms : List (Option (Message V))) (m : Message V)
      → collect f (ms ++ some m ∷ []) ≡ collect f ms ++ f m
  collect-append_one f ms m = rw (collect-append f ms, append-nil)

  -- The messages yielded so far, each of them, have the DIIDs 0, 1, … without a gap.
  abbrev pub IsNumbered : Request V → Type 0
  IsNumbered s = collect diid_of s.sent ≡ diids_upto s.diid

  -- A None changes nothing.
  pub collect-append_none :
      {B : Type 0} (f : Message V → List B) (ms : List (Option (Message V)))
      → collect f (ms ++ none ∷ []) ≡ collect f ms
  collect-append_none f ms = rw (collect-append f ms, append-nil)

  pub yield_none-Keeps : Keeps IsNumbered yield_none
  unfolding yield_none
  yield_none-Keeps s p = collect-append_none diid_of s.sent ∙ p

  -- A key that the second dict lacks comes from the first.
  pub lookup-merge_absent :
      (k : String) (d d' : Dict String (Field V))
      → has k d' ≡ false
      → lookup k (merge d d') ≡ lookup k d
  unfolding merge has
  lookup-merge_absent k d [] h = refl
  lookup-merge_absent k d ((j, v) ∷ d') h =
      ground (arith, lookup-merge_absent k (insert j v d) d', lookup-insert j k v d)

module _ {V : Type 0} (scan : Settings V) (fresh : has "DIID" scan.metadata ≡ false) where
  -- The metadata of the request's next message has the request's DIID.
  lookup-metadata :
      (d : ℕ) (m : Dict String (Field V))
      → has "DIID" m ≡ false
      → lookup "DIID" (
          merge
            (merge
              (("readout_priority", Field.text "monitored") ∷ ("DIID", number d) ∷ [])
              scan.metadata)
            m)
        ≡ some (number d)
  unfolding lookup
  lookup-metadata d m h =
      rw (lookup-merge_absent "DIID" _ m h, lookup-merge_absent "DIID" _ scan.metadata fresh)

  pub device_msg-Keeps :
      (m : Message V) → has "DIID" m.metadata ≡ false → Keeps IsNumbered (Stubs.device_msg scan m)
  unfolding Stubs.device_msg Stubs.device_msg_metadata modify
  device_msg-Keeps m h s p =
      collect-append_one diid_of s.sent _
      ∙ ap (λ n. collect diid_of s.sent ++ number_or_none n ∷ [])
          (lookup-metadata s.diid m.metadata h)
      ∙ ap (λ ns. ns ++ some s.diid ∷ []) p
