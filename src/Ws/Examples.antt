-- ===== src/Ws/Examples.antt =====
-- Tests of the WebSocket modules, on a libwebsockets that keeps a log and whose socket takes two
-- messages.
use rockets.Prelude.{
  ℕ, ◌≡◌, refl, ◌⊎◌, Text, bytes, is_empty, true, false, not, ◌&&◌, none, some, List, [], ◌∷◌, ◌++◌,
  ltb, length, if◌then◌else◌,
}
use rockets.Ws.Types.{Format, text, binary, others, Response, no_response, Lws, Fragment}
use rockets.Ws.Connection.{Connection, write_messages}
use rockets.Ws.Connection.Fifo.{write_all, write_messages-fifo}
use rockets.Ws.MessageHandler.{
  Callbacks, State, Objects, send_response_to_recipient, handle_message, reply_all,
}
use rockets.Ws.MessageHandler.Delivery.{
  receives, has_format, in_format, send_response_to_recipient-delivery,
}
use rockets.Ws.MessageHandler.Buffer.{
  handle_fragments, handle_message-fragments, handle_messages, handle_messages-deliver, Message,
  handle_message-mixes,
}

abbrev log_lws : Lws
log_lws = record {
  Wsi = List Text;
  send_pipe_choked = λ w. ltb 1 (length w);
  callback_on_writable = λ w. w;
  write = λ s is_text w. s ∷ w;
}

abbrev three_messages : Connection (List Text)
three_messages = record {
  out = (bytes "a", text) ∷ (bytes "b", binary) ∷ (bytes "c", text) ∷ [];
  wsi = [];
}

write_messages-fifo_example :
    (sent rest : List (Text × Format)) × (three_messages.out ≡ sent ++ rest)
    × ((write_messages log_lws three_messages
            ≡ record { out = rest; wsi = write_all log_lws sent [] })
          × (rest ≡ [])
        ⊎ (write_messages log_lws three_messages
            ≡ record { out = rest; wsi = write_all log_lws sent [] })
          × (ltb 1 (length (write_all log_lws sent [])) ≡ true))
write_messages-fifo_example = write_messages-fifo log_lws three_messages

abbrev idle : Objects log_lws
idle k = record { out = []; wsi = [] }

abbrev news : Response
news = record { message = bytes "news"; recipient = others; format = text }

send_response_to_recipient-delivery_example :
    send_response_to_recipient log_lws news 1 (1 ∷ 2 ∷ []) idle 2 ≡ (
      if not (is_empty news.message) && has_format text && receives others 1 (1 ∷ 2 ∷ []) 2
      then in_format log_lws news (idle 2)
      else idle 2)
send_response_to_recipient-delivery_example =
    send_response_to_recipient-delivery log_lws news 1 (1 ∷ 2 ∷ []) idle 2 (refl, (refl, tt))

-- The application keeps the messages that it was given.
abbrev keep_async : Text → ℕ → List Text → List Text × List Text
keep_async message c seen = ([], message ∷ seen)

abbrev async_callbacks : Callbacks (List Text)
async_callbacks = record {
  callback_open = none;
  callback_close = none;
  callback_text = none;
  callback_text_async = some keep_async;
  callback_binary = none;
}

abbrev sync_callbacks : Callbacks (List Text)
sync_callbacks = record async_callbacks {
  callback_text = some (λ message c seen. (no_response, message ∷ seen));
}

abbrev start : State (List Text) (List Text)
start = record { buffer = []; listed = 1 ∷ 2 ∷ []; objects = idle; app = [] }

abbrev part : Text → Fragment
part s = record { content = s; is_final = false; is_binary = false }

abbrev whole : Text → Fragment
whole s = record { content = s; is_final = true; is_binary = false }

handle_message-fragments_example :
    handle_message log_lws sync_callbacks 1
      (whole (bytes "c"))
      (handle_fragments log_lws sync_callbacks 1 (part (bytes "a") ∷ part (bytes "b") ∷ []) start)
    ≡ handle_message log_lws sync_callbacks 1 (whole (bytes "abc")) start
handle_message-fragments_example =
    handle_message-fragments log_lws sync_callbacks 1 (part (bytes "a") ∷ part (bytes "b") ∷ [])
      (whole (bytes "c")) start (refl, (refl, tt))

-- A message in two fragments from one client, and then a whole one from another.
abbrev two_messages : List Message
two_messages =
    record {
      client = 1;
      fragments = part (bytes "o") ∷ part (bytes "n") ∷ [];
      final = whole (bytes "e");
    }
    ∷ record { client = 2; fragments = []; final = whole (bytes "two") }
    ∷ []

handle_messages-deliver_example :
    handle_messages log_lws async_callbacks two_messages start
    ≡ record start { app = bytes "two" ∷ bytes "one" ∷ [] }
unfolding reply_all
handle_messages-deliver_example =
    handle_messages-deliver log_lws async_callbacks two_messages start
      (((refl, (refl, tt)), refl), ((tt, refl), tt)) refl

handle_message-mixes_example :
    handle_message log_lws sync_callbacks 2
      (whole (bytes "two"))
      (handle_message log_lws sync_callbacks 1 (part (bytes "o")) start)
    ≡ handle_message log_lws sync_callbacks 2 (whole (bytes "otwo")) start
handle_message-mixes_example =
    handle_message-mixes log_lws sync_callbacks 1 2 (part (bytes "o")) (whole (bytes "two")) start
      refl
