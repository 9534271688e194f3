-- ===== src/Ws/MessageHandler/Delivery.antt =====
-- Which connections a response goes to.
use rockets.Prelude.{
  ℕ, is_empty, Bool, true, false, not, ◌&&◌, List, [], ◌∷◌, ◌≡◌, refl, ◌∙◌, ap, ◌==◌, arith, inl,
  inr, if◌then◌else◌, Bool-cases, memb, Distinct,
}
use rockets.Ws.Connection.{Connection, send_text, send_binary}
use rockets.Ws.Types.{Format, unspecified, is_text, Recipient, sender, others, all, Response, Lws}
use rockets.Ws.MessageHandler.{Objects, send_response, modify, send_all, send_response_to_recipient}

-- Whether the connection `k` is a recipient of a response to `c`.
abbrev pub receives : Recipient → ℕ → List ℕ → ℕ → Bool
receives all c listed k = memb k listed
receives others c listed k = memb k listed && not (k == c)
receives sender c listed k = c == k

abbrev pub has_format : Format → Bool
has_format unspecified = false
has_format _ = true

module _ (lws : Lws) where
  -- A text response as a text, a binary one as such.
  abbrev pub in_format : Response → Connection lws.Wsi → Connection lws.Wsi
  in_format response =
      if is_text response.format
      then send_text lws response.message
      else send_binary lws response.message

  loop :
      (response : Response) (left_out : ℕ → Bool) (listed : List ℕ) (objects : Objects lws) (k : ℕ)
      → Distinct listed
      → send_all lws response left_out listed objects k ≡ (
          if memb k listed && not (left_out k)
          then send_response lws response (objects k)
          else objects k)
  unfolding send_all modify
  loop response left_out [] objects k h = refl
  loop response left_out (c ∷ cs) objects k h =
      loop response left_out cs _ k h.1 ∙ elim (Bool-cases (c == k)) [
        | inl same ↦
            let e : c ≡ k = ground arith in
            let new : memb k cs ≡ false = rw e at h.0 in
            let kept : left_out c ≡ left_out k = ap left_out e in
            elim (Bool-cases (left_out k)) [
              | inl out ↦ rw (kept, out, new, same) refl
              | inr sent ↦ rw (kept, sent, new, same) refl
            ]
        | inr other ↦ elim (Bool-cases (left_out c)) [
          | inl out ↦ rw (out, other) refl
          | inr sent ↦ rw (sent, other) refl
        ]
      ]

  -- A response that is not empty and has a format is sent in that format to each of its recipients,
  -- once, and no other connection changes: all of the server's connections, all but the sender's, or
  -- the sender alone. The server's connections are distinct. A response that is empty, or whose
  -- format is unspecified, is sent to none.
  pub send_response_to_recipient-delivery :
      (response : Response) (c : ℕ) (listed : List ℕ) (objects : Objects lws) (k : ℕ)
      → Distinct listed
      → send_response_to_recipient lws response c listed objects k ≡ (
          if not (is_empty response.message)
            && has_format response.format
            && receives response.recipient c listed k
          then in_format response (objects k)
          else objects k)
  unfolding send_response_to_recipient modify send_response
  send_response_to_recipient-delivery response c listed objects k h = ground (
    arith,
    loop response (λ j. false) listed objects k h,
    loop response (λ j. j == c) listed objects k h,
  )
