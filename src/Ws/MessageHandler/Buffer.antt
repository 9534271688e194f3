-- ===== src/Ws/MessageHandler/Buffer.antt =====
-- The buffer in which the fragments of a message are put together.
use rockets.Prelude.{
  ℕ, Text, Bool, true, false, none, some, List, [], ◌∷◌, ◌++◌, ◌≡◌, refl, ap, sym, ◌∙◌, All,
  Bool-cases, Option-cases, inl, inr,
}
use mathlib.Core.List.{append_assoc, append-nil}
use rockets.Ws.Types.{Lws, Fragment, text, binary}
use rockets.Ws.MessageHandler.{
  Callbacks, State, handle_message, handle_text, handle_binary, respond, with_format,
  send_response_to_recipient, reply_all,
}

abbrev pub joined : List Fragment → Text
joined [] = []
joined (f ∷ fs) = f.content ++ joined fs

-- A message of a connection: its fragments, and the last.
pub record Message : Type 0 where
  pub client : ℕ
  pub fragments : List Fragment
  pub final : Fragment

abbrev pub IsWhole : Message → Type 0
IsWhole m = All (λ f. f.is_final ≡ false) m.fragments × (m.final.is_final ≡ true)

module _ (lws : Lws) {A : Type 0} (callbacks : Callbacks A) (c : ℕ) where
  unfoldable pub handle_fragments : List Fragment → State lws.Wsi A → State lws.Wsi A
  unfolding handle_message
  handle_fragments [] s = s
  handle_fragments (f ∷ fs) s = handle_fragments fs (handle_message lws callbacks c f s)

  collected :
      (fs : List Fragment) (s : State lws.Wsi A)
      → All (λ f. f.is_final ≡ false) fs
      → handle_fragments fs s ≡ record s { buffer = s.buffer ++ joined fs }
  unfolding handle_fragments handle_message
  collected [] s h = ap (λ b. record s { buffer = b }) (sym (append-nil s.buffer))
  collected (f ∷ fs) s h = rw h.0 (
      collected fs (record s { buffer = s.buffer ++ f.content }) h.1
      ∙ ap (λ b. record s { buffer = b }) (append_assoc s.buffer f.content (joined fs)))

  -- A message that comes in fragments, one connection's alone, is handled as the message that they
  -- make together.
  pub handle_message-fragments :
      (fs : List Fragment) (final : Fragment) (s : State lws.Wsi A)
      → All (λ f. f.is_final ≡ false) fs
      → handle_message lws callbacks c final (handle_fragments fs s)
        ≡ handle_message lws callbacks c (record final { content = joined fs ++ final.content }) s
  unfolding handle_message
  handle_message-fragments fs final s h =
      rw (collected fs s h, append_assoc s.buffer (joined fs) final.content) refl

module _ (lws : Lws) {A : Type 0} (callbacks : Callbacks A) where
  -- The buffer is one for all connections: a fragment of one connection stands before the message of
  -- another that comes next.
  pub handle_message-mixes :
      (c d : ℕ) (part : Fragment) (other : Fragment) (s : State lws.Wsi A)
      → part.is_final ≡ false
      → handle_message lws callbacks d other (handle_message lws callbacks c part s)
        ≡ handle_message lws callbacks d
            (record other { content = part.content ++ other.content })
            s
  unfolding handle_message
  handle_message-mixes c d part other s more =
      rw (more, append_assoc s.buffer part.content other.content) refl

  -- What the application and the connections make of a whole message, without a buffer: the callback
  -- for its kind gets it, and the response goes to its recipients, or the replies to the sender.
  abbrev pub deliver : ℕ → Bool → Text → State lws.Wsi A → State lws.Wsi A
  deliver c true message s = elim callbacks.callback_binary [
    | some callback ↦
        let (response, app') = callback message c s.app in
        record s {
          objects =
              send_response_to_recipient lws (with_format lws callbacks binary response) c s.listed
                s.objects;
          app = app';
        }
    | none ↦ s
  ]
  deliver c false message s = elim callbacks.callback_text [
    | some callback ↦
        let (response, app') = callback message c s.app in
        record s {
          objects =
              send_response_to_recipient lws (with_format lws callbacks text response) c s.listed
                s.objects;
          app = app';
        }
    | none ↦ elim callbacks.callback_text_async [
      | some callback ↦
          let (replies, app') = callback message c s.app in
          record s { objects = reply_all lws replies c s.objects; app = app' }
      | none ↦ s
    ]
  ]

  unfoldable pub handle_messages : List Message → State lws.Wsi A → State lws.Wsi A
  unfolding handle_message handle_fragments
  handle_messages [] s = s
  handle_messages (m ∷ ms) s = handle_messages ms (
      handle_message lws callbacks m.client m.final
        (handle_fragments lws callbacks m.client m.fragments s))

  abbrev pub deliver_all : List Message → State lws.Wsi A → State lws.Wsi A
  deliver_all [] s = s
  deliver_all (m ∷ ms) s =
      deliver_all ms (deliver m.client m.final.is_binary (joined m.fragments ++ m.final.content) s)

  text_handled :
      (c : ℕ) (m : Text) (s : State lws.Wsi A)
      → handle_text lws callbacks c (record s { buffer = m })
        ≡ deliver c false m (record s { buffer = [] })
  unfolding handle_text respond send_response_to_recipient
  text_handled c m s = elim (Option-cases callbacks.callback_text) [
    | inl off ↦ elim (Option-cases callbacks.callback_text_async) [
      | inl off_too ↦ rw (off, off_too) refl
      | inr (callback, on) ↦ rw (off, on) refl
    ]
    | inr (callback, on) ↦ rw on refl
  ]

  binary_handled :
      (c : ℕ) (m : Text) (s : State lws.Wsi A)
      → handle_binary lws callbacks c (record s { buffer = m })
        ≡ deliver c true m (record s { buffer = [] })
  unfolding handle_binary respond send_response_to_recipient
  binary_handled c m s = elim (Option-cases callbacks.callback_binary) [
    | inl off ↦ rw off refl
    | inr (callback, on) ↦ rw on refl
  ]

  handled :
      (c : ℕ) (f : Fragment) (s : State lws.Wsi A)
      → f.is_final ≡ true
      → handle_message lws callbacks c f (record s { buffer = [] })
        ≡ deliver c f.is_binary f.content (record s { buffer = [] })
  unfolding handle_message
  handled c f s whole = elim (Bool-cases f.is_binary) [
    | inl kind ↦ rw (whole, kind) (binary_handled c f.content s)
    | inr kind ↦ rw (whole, kind) (text_handled c f.content s)
  ]

  deliver-buffer :
      (c : ℕ) (kind : Bool) (m : Text) (s : State lws.Wsi A)
      → (deliver c kind m s).buffer ≡ s.buffer
  deliver-buffer c true m s = elim (Option-cases callbacks.callback_binary) [
    | inl off ↦ rw off refl
    | inr (callback, on) ↦ rw on refl
  ]
  deliver-buffer c false m s = elim (Option-cases callbacks.callback_text) [
    | inl off ↦ elim (Option-cases callbacks.callback_text_async) [
      | inl off_too ↦ rw (off, off_too) refl
      | inr (callback, on) ↦ rw (off, on) refl
    ]
    | inr (callback, on) ↦ rw on refl
  ]

  one_delivered :
      (m : Message) (s : State lws.Wsi A)
      → IsWhole m
      → s.buffer ≡ []
      → handle_message lws callbacks m.client m.final
          (handle_fragments lws callbacks m.client m.fragments s)
        ≡ deliver m.client m.final.is_binary (joined m.fragments ++ m.final.content) s
  one_delivered m s (more, last) empty =
      let clean : record s { buffer = [] } ≡ s = ap (λ b. record s { buffer = b }) (sym empty) in
      handle_message-fragments lws callbacks m.client m.fragments m.final s more
      ∙ rw (← clean) (
          handled m.client (record m.final { content = joined m.fragments ++ m.final.content }) s
            last)

  -- Where the buffer is empty, whole messages that come one after the other, each in fragments, from
  -- any connections, with any callbacks, are handled as if there were no buffer: the callback for the
  -- kind of each message gets just its bytes, and the response or the replies go out.
  pub handle_messages-deliver :
      (ms : List Message) (s : State lws.Wsi A)
      → All IsWhole ms
      → s.buffer ≡ []
      → handle_messages ms s ≡ deliver_all ms s
  unfolding handle_messages
  handle_messages-deliver [] s whole empty = refl
  handle_messages-deliver (m ∷ ms) s whole empty = rw (one_delivered m s whole.0 empty) (
      handle_messages-deliver ms
        (deliver m.client m.final.is_binary (joined m.fragments ++ m.final.content) s) whole.1
        (deliver-buffer m.client m.final.is_binary (joined m.fragments ++ m.final.content) s
          ∙ empty))
