-- ===== src/ScanBundler/Emitter/Bundle.antt =====
-- What one publication of an emitter sends (scan_bundler/scan_bundler/emitter.py).
use bec.Prelude.{
  keep, truthy, Option-cases, Bool-cases, inl, inr, none, some, ◌==◌, string_eq, String, ◌≡◌, refl,
  List, [], ◌∷◌, ◌++◌, map, All, ap, ◌∙◌, append_assoc, append-nil, sym,
}
use bec.ScanBundler.Emitter.{
  Buffered, Produced, set, send, Emitter, add_message, last_endpoint, set_public, publish_messages,
  publish_data,
}

module _ {M : Type 0} where
  -- Adds one message after the other.
  abbrev pub add_all : List (Buffered M) → Emitter M → Emitter M
  add_all [] e = e
  add_all (b ∷ bs) e = add_all bs (add_message b.message b.endpoint b.public e)

  add_all_lem :
      (bs : List (Buffered M)) (e : Emitter M)
      → add_all bs e ≡ record e { send_buffer = e.send_buffer ++ bs }
  unfolding add_message
  add_all_lem [] e = ap (λ xs. record e { send_buffer = xs }) (sym (append-nil e.send_buffer))
  add_all_lem (b ∷ bs) e =
      add_all_lem bs (add_message b.message b.endpoint b.public e)
      ∙ ap (λ xs. record e { send_buffer = xs }) (append_assoc e.send_buffer (b ∷ []) bs)

  last_endpoint_lem :
      (endpoint : String) (bs : List (Buffered M))
      → All (λ b. b.endpoint ≡ endpoint) bs
      → last_endpoint endpoint bs ≡ endpoint
  unfolding last_endpoint
  last_endpoint_lem endpoint [] h = refl
  last_endpoint_lem endpoint (b ∷ bs) h =
      ap (λ x. last_endpoint x bs) h.0 ∙ last_endpoint_lem endpoint bs h.1

  abbrev pub public_endpoint : Buffered M → String
  public_endpoint b = elim b.public [ none ↦ "" | some p ↦ p ]

  -- One value, which expires after 1800 seconds, for each message with a public endpoint.
  abbrev pub public_copies : List (Buffered M) → List (Produced M)
  public_copies bs =
      map (λ b. set (public_endpoint b) b.message 1800) (keep (λ b. truthy b.public) bs)

  set_public-public_copies : (bs : List (Buffered M)) → set_public bs ≡ public_copies bs
  unfolding set_public
  set_public-public_copies [] = refl
  set_public-public_copies (b ∷ bs) = elim (Option-cases b.public) [
    | inl e ↦ rw e (set_public-public_copies bs)
    | inr (p, e) ↦ elim (Bool-cases (p == "")) [
      | inl x ↦ rw (e, x) (set_public-public_copies bs)
      | inr x ↦ rw (e, x) (ap (λ l. set p b.message 1800 ∷ l) (set_public-public_copies bs))
    ]
  ]

  -- Messages that are added to an empty buffer, one at least and all for one endpoint, are published in
  -- one bundle at this endpoint, in their order, each of them once, after one value for each message
  -- with a public endpoint, set there for 1800 seconds, in the order of the messages; the buffer is
  -- empty then.
  pub publish_data-add_message :
      (endpoint : String) (b : Buffered M) (bs : List (Buffered M)) (e : Emitter M)
      → e.send_buffer ≡ []
      → All (λ c. c.endpoint ≡ endpoint) (b ∷ bs)
      → publish_data (add_all (b ∷ bs) e) ≡ record {
        send_buffer = [];
        produced =
            e.produced
            ++ public_copies (b ∷ bs)
            ++ send endpoint (map (λ c. c.message) (b ∷ bs)) ∷ [];
      }
  unfolding publish_data publish_messages
  publish_data-add_message endpoint b bs e empty h =
      let filled : add_all (b ∷ bs) e ≡ record e { send_buffer = b ∷ bs } =
        add_all_lem (b ∷ bs) e ∙ ap (λ xs. record e { send_buffer = xs ++ b ∷ bs }) empty in
      ap publish_data filled
      ∙ ap
          (λ p. record {
            send_buffer = [];
            produced =
                e.produced ++ set_public (b ∷ bs) ++ send p (map (λ c. c.message) (b ∷ bs)) ∷ [];
          })
          (ap (λ p. last_endpoint p (b ∷ bs)) h.0 ∙ last_endpoint_lem endpoint (b ∷ bs) h)
      ∙ ap
          (λ copies. record {
            send_buffer = [];
            produced = e.produced ++ copies ++ send endpoint (map (λ c. c.message) (b ∷ bs)) ∷ [];
          })
          (set_public-public_copies (b ∷ bs))
