-- ===== src/Ws/Connection.antt =====
-- rockets/ws/connection.cpp with channel.cpp: the messages of a connection that wait to be written.
pub mod Fifo
use rockets.Prelude.{Text, Bool, true, false, not, List, [], ◌∷◌, ◌++◌, if◌then◌else◌}
use rockets.Ws.Types.{Format, text, binary, Lws, is_text}

pub record Connection (W : Type 0) : Type 0 where
  pub out : List (Text × Format)
  pub wsi : W

module _ (lws : Lws) where
  open lws use {Wsi}

  unfoldable pub enqueue_text : Text → Connection Wsi → Connection Wsi
  enqueue_text message c = record c { out = c.out ++ (message, text) ∷ [] }

  unfoldable pub enqueue_binary : Text → Connection Wsi → Connection Wsi
  enqueue_binary message c = record c { out = c.out ++ (message, binary) ∷ [] }

  -- Channel::requestWrite
  unfoldable pub request_write : Connection Wsi → Connection Wsi
  request_write c = record c { wsi = lws.callback_on_writable c.wsi }

  unfoldable pub send_text : Text → Connection Wsi → Connection Wsi
  unfolding enqueue_text request_write
  send_text message c = request_write (enqueue_text message c)

  unfoldable pub send_binary : Text → Connection Wsi → Connection Wsi
  unfolding enqueue_binary request_write
  send_binary message c = request_write (enqueue_binary message c)

  -- Channel::write; every format but text is written as binary.
  unfoldable pub write : Text × Format → Wsi → Wsi
  write (message, format) w = lws.write message (is_text format) w

  -- The loop of writeMessages, with writeOneMessage: each round takes the first message away.
  unfoldable pub write_loop : List (Text × Format) → Wsi → Connection Wsi
  unfolding write
  write_loop [] w = record { out = []; wsi = w }
  write_loop (m ∷ out) w =
      let rest = write_loop out (write m w) in
      if lws.send_pipe_choked w then record { out = m ∷ out; wsi = w } else rest

  abbrev pub has_message : Connection Wsi → Bool
  has_message c = elim c.out [ [] ↦ false | m ∷ ms ↦ true ]

  unfoldable pub write_messages : Connection Wsi → Connection Wsi
  unfolding write_loop request_write
  write_messages c =
      let c' = write_loop c.out c.wsi in if has_message c' then request_write c' else c'
