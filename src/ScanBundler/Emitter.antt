-- ===== src/ScanBundler/Emitter.antt =====
-- EmitterBase, the buffered producer of the emitters (scan_bundler/scan_bundler/emitter.py). `M` is what
-- a message is.
pub mod Bundle
use bec.Prelude.{
  ◌==◌, string_eq, if◌then◌else◌, ℕ, String, Option, none, some, List, [], ◌∷◌, ◌++◌, map,
}

pub record Buffered (M : Type 0) : Type 0 where
  pub message : M
  pub endpoint : String
  pub public : Option String

-- What the producer is told: a value to set, which expires, or a bundle to send.
pub data Produced (M : Type 0) : Type 0 where
  set : String → M → ℕ → Produced M
  send : String → List M → Produced M

pub record Emitter (M : Type 0) : Type 0 where
  pub send_buffer : List (Buffered M)
  pub produced : List (Produced M)

abbrev pub expire : ℕ
expire = 1800

module _ {M : Type 0} where
  unfoldable pub add_message : M → String → Option String → Emitter M → Emitter M
  add_message msg endpoint public e = record e {
    send_buffer =
        e.send_buffer ++ record { message = msg; endpoint = endpoint; public = public } ∷ [];
  }

  -- The endpoint that the loop of `_publish_data` leaves: the one of the last message.
  unfoldable pub last_endpoint : String → List (Buffered M) → String
  last_endpoint endpoint [] = endpoint
  last_endpoint endpoint (b ∷ bs) = last_endpoint b.endpoint bs

  -- The public copies of the messages; None and the empty text name no endpoint.
  unfoldable pub set_public : List (Buffered M) → List (Produced M)
  set_public [] = []
  set_public (b ∷ bs) = elim b.public [
    | none ↦ set_public bs
    | some p ↦ if p == "" then set_public bs else set p b.message expire ∷ set_public bs
  ]

  abbrev pub publish_messages : List (Buffered M) → Emitter M → Emitter M
  unfolding last_endpoint set_public
  publish_messages [] e = e
  publish_messages (b ∷ bs) e = record {
    send_buffer = [];
    produced =
        e.produced
        ++ set_public (b ∷ bs)
        ++ send (last_endpoint b.endpoint (b ∷ bs)) (map (λ c. c.message) (b ∷ bs)) ∷ [];
  }

  -- `_publish_data`, with `_get_messages_from_buffer`, which empties the buffer.
  unfoldable pub publish_data : Emitter M → Emitter M
  unfolding publish_messages
  publish_data e = publish_messages e.send_buffer e
