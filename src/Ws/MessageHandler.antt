-- ===== src/Ws/MessageHandler.antt =====
-- rockets/ws/messageHandler.cpp. A connection object is known by its address, which is the client id;
-- `W` is what libwebsockets keeps for a connection and `A` the state of the application, whose
-- callbacks are taken not to throw.
pub mod Delivery
pub mod Buffer
use rockets.Prelude.{
  ℕ, Text, is_empty, Bool, true, false, not, ◌&&◌, Option, none, some, List, [], ◌∷◌, ◌++◌, ◌==◌,
  if◌then◌else◌,
}
use rockets.Ws.Types.{
  Format, text, binary, unspecified, Recipient, sender, others, all, Response, no_response, Lws,
  Fragment, has_more, current_format,
}
use rockets.Ws.Connection.{Connection, send_text, send_binary}

pub record Callbacks (A : Type 0) : Type 0 where
  pub callback_open : Option (ℕ → A → List Response × A)
  pub callback_close : Option (ℕ → A → List Response × A)
  pub callback_text : Option (Text → ℕ → A → Response × A)
  -- The replies that are given before the callback returns; later ones are `reply_async`.
  pub callback_text_async : Option (Text → ℕ → A → List Text × A)
  pub callback_binary : Option (Text → ℕ → A → Response × A)

-- `listed` are the connections of the server, in the order of the map; a client has none.
pub record State (W A : Type 0) : Type 0 where
  pub buffer : Text
  pub listed : List ℕ
  pub objects : ℕ → Connection W
  pub app : A

module _ (lws : Lws) where
  open lws use {Wsi}

  abbrev pub Objects : Type 0
  Objects = ℕ → Connection Wsi

  unfoldable pub send_response : Response → Connection Wsi → Connection Wsi
  unfolding send_text send_binary
  send_response response c = elim response.format [
    | unspecified ↦ c
    | binary ↦ send_binary lws response.message c
    | text ↦ send_text lws response.message c
  ]

  -- A change of the object at an address.
  unfoldable pub modify : ℕ → (Connection Wsi → Connection Wsi) → Objects → Objects
  modify c f objects k = if c == k then f (objects k) else objects k

  -- The loop over the connections, which leaves one out.
  unfoldable pub send_all : Response → (ℕ → Bool) → List ℕ → Objects → Objects
  unfolding send_response modify
  send_all response left_out [] objects = objects
  send_all response left_out (c ∷ cs) objects =
      send_all response left_out cs
        (if left_out c then objects else modify c (send_response response) objects)

  unfoldable pub send_response_to_recipient : Response → ℕ → List ℕ → Objects → Objects
  unfolding send_all send_response modify
  send_response_to_recipient response c listed objects =
      if is_empty response.message then objects else elim response.recipient [
        | all ↦ send_all response (λ k. false) listed objects
        | others ↦ send_all response (λ k. k == c) listed objects
        | sender ↦ modify c (send_response response) objects
      ]

  unfoldable pub send_responses : List Response → ℕ → List ℕ → Objects → Objects
  unfolding send_response_to_recipient
  send_responses [] c listed objects = objects
  send_responses (r ∷ rs) c listed objects =
      send_responses rs c listed (send_response_to_recipient r c listed objects)

  -- The reply of an asynchronous callback, to a connection that may be gone.
  unfoldable pub reply_async : Bool → Text → ℕ → Objects → Objects
  unfolding modify
  reply_async alive reply c objects =
      if alive && not (is_empty reply) then modify c (send_text lws reply) objects else objects

  unfoldable pub reply_all : List Text → ℕ → Objects → Objects
  unfolding reply_async
  reply_all [] c objects = objects
  reply_all (r ∷ rs) c objects = reply_all rs c (reply_async true r c objects)

  module _ {A : Type 0} (callbacks : Callbacks A) where
    -- handleOpenConnection and handleCloseConnection, which differ in the callback.
    unfoldable pub handle_connection :
        Option (ℕ → A → List Response × A) → ℕ → State Wsi A → State Wsi A
    unfolding send_responses
    handle_connection none c s = s
    handle_connection (some callback) c s =
        let (responses, app') = callback c s.app in
        record s { objects = send_responses responses c s.listed s.objects; app = app' }

    unfoldable pub handle_open_connection : ℕ → State Wsi A → State Wsi A
    unfolding handle_connection
    handle_open_connection c s = handle_connection callbacks.callback_open c s

    unfoldable pub handle_close_connection : ℕ → State Wsi A → State Wsi A
    unfolding handle_connection
    handle_close_connection c s = handle_connection callbacks.callback_close c s

    abbrev pub with_format : Format → Response → Response
    with_format format response = elim response.format [
      | unspecified ↦ record response { format = format }
      | _ ↦ response
    ]

    -- The end of handleMessage.
    unfoldable pub respond : Format → Response → A → ℕ → State Wsi A → State Wsi A
    unfolding send_response_to_recipient
    respond format response app' c s = record s {
      buffer = [];
      objects = send_response_to_recipient (with_format format response) c s.listed s.objects;
      app = app';
    }

    -- The callback of a text message. The asynchronous branch returns before `_buffer.clear()`, but
    -- `Request(std::string&&)` has moved the bytes out of the buffer.
    unfoldable pub handle_text : ℕ → State Wsi A → State Wsi A
    unfolding respond reply_all
    handle_text c s = elim callbacks.callback_text [
      | some callback ↦
          let (response, app') = callback s.buffer c s.app in respond text response app' c s
      | none ↦ elim callbacks.callback_text_async [
        | some callback ↦
            let (replies, app') = callback s.buffer c s.app in
            record s { buffer = []; objects = reply_all replies c s.objects; app = app' }
        | none ↦ respond text no_response s.app c s
      ]
    ]

    unfoldable pub handle_binary : ℕ → State Wsi A → State Wsi A
    unfolding respond
    handle_binary c s = elim callbacks.callback_binary [
      | some callback ↦
          let (response, app') = callback s.buffer c s.app in respond binary response app' c s
      | none ↦ respond binary no_response s.app c s
    ]

    unfoldable pub handle_message : ℕ → Fragment → State Wsi A → State Wsi A
    unfolding handle_text handle_binary
    handle_message c fragment s =
        let s' = record s { buffer = s.buffer ++ fragment.content } in
        if has_more fragment
        then s'
        else if fragment.is_binary
        then handle_binary c s'
        else handle_text c s'
