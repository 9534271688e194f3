-- ===== src/Server/Broadcast.antt =====
-- What a broadcast puts into the queues of the clients, and how it is written.
use rockets.Prelude.{
  ℕ, ◌+◌, ◌≡◌, refl, ◌∙◌, ◌⊎◌, inl, inr, Text, Bool, true, false, not, ◌&&◌, some, List, [], ◌∷◌,
  ◌++◌, memb, Distinct, ◌==◌, arith, if◌then◌else◌, Bool-cases,
}
use rockets.Prelude.Assoc.{find, nat_eq}
use rockets.Prelude.Result.{ok}
use rockets.Http.Lws.{Lws as HttpLws}
use rockets.Ws.Types.{Format, text, Lws}
use rockets.Ws.Connection.{Connection, enqueue_text, enqueue_binary, write_messages}
use rockets.Ws.Connection.Fifo.{write_all, write_messages-fifo}
use rockets.Ws.MessageHandler.{Objects, modify}
use rockets.Server.{
  Server, clients, for_clients, broadcast_text, broadcast_text_filter, send_text, broadcast_binary,
  connection_at, handle_write, request_broadcast,
}

for_clients-at :
    (lws : Lws) (f : ℕ → Connection lws.Wsi → Connection lws.Wsi) (cs : List ℕ)
    (objects : Objects lws) (k : ℕ)
    → Distinct cs
    → for_clients lws f cs objects k ≡ (if memb k cs then f k (objects k) else objects k)
unfolding for_clients modify
for_clients-at lws f [] objects k d = refl
for_clients-at lws f (c ∷ cs) objects k d =
    for_clients-at lws f cs _ k d.1 ∙ elim (Bool-cases (c == k)) [
      | inl same ↦
          let e : c ≡ k = ground arith in
          let new : memb k cs ≡ false = rw e at d.0 in rw (new, same, e) refl
      | inr other ↦ rw other refl
    ]

find-clients :
    (wsi client : ℕ) (m : List (ℕ × ℕ)) → find wsi m ≡ some client → memb client (clients m) ≡ true
unfolding find clients
find-clients wsi client [] f = absurd (ground arith)
find-clients wsi client ((w, c) ∷ m) f = ground (arith, find-clients wsi client m)

module _ (lws : Lws) where
  -- The connection `c` with a text behind its queue has become `c'`, its front written.
  abbrev pub Written : Text → Connection lws.Wsi → Connection lws.Wsi → Type 0
  Written message c c' =
      (sent rest : List (Text × Format)) × (c.out ++ (message, text) ∷ [] ≡ sent ++ rest)
      × ((c' ≡ record { out = rest; wsi = write_all lws sent c.wsi }) × (rest ≡ [])
          ⊎ (c' ≡ record { out = rest; wsi = lws.callback_on_writable (write_all lws sent c.wsi) })
            × (lws.send_pipe_choked (write_all lws sent c.wsi) ≡ true))

  write_messages-Written :
      (message : Text) (c c' : Connection lws.Wsi)
      → c' ≡ write_messages lws (enqueue_text lws message c)
      → Written message c c'
  unfolding enqueue_text
  write_messages-Written message c c' e =
      rw e (write_messages-fifo lws (enqueue_text lws message c))

module _ {http : HttpLws} (lws : Lws) {A : Type 0} where
  -- From `s` to `s'` the message is put, once, into the queue of each client that the test accepts.
  abbrev pub Puts :
      (Connection lws.Wsi → Connection lws.Wsi)
      → (ℕ → Bool)
      → Server http lws.Wsi A
      → Server http lws.Wsi A
      → Type 0
  Puts enqueue accepts s s' =
      ((k : ℕ)
        → s'.objects k ≡ (
            if memb k (clients s.ws_connections) && accepts k
            then enqueue (s.objects k)
            else s.objects k))
      × (s'.broadcasts ≡ s.broadcasts + 1)
      × (s'.ws_connections ≡ s.ws_connections)

  -- A text is put into the queue of each client, once; with a filter, of each that is not in it;
  -- with a client's id, of that client if it is still there; and a binary message goes to each.
  -- No other queue changes, and libwebsockets is asked, once, to let the connections write.
  pub broadcast-Puts :
      (message : Text) (filter : List ℕ) (client : ℕ) (s : Server http lws.Wsi A)
      → Distinct (clients s.ws_connections)
      → Puts (enqueue_text lws message) (λ k. true) s (broadcast_text lws message s)
        × Puts
            (enqueue_text lws message)
            (λ k. not (memb k filter))
            s
            (broadcast_text_filter lws message filter s)
        × Puts (enqueue_text lws message) (λ k. client == k) s (send_text lws message client s)
        × Puts (enqueue_binary lws message) (λ k. true) s (broadcast_binary lws message s)
  unfolding broadcast_text broadcast_text_filter send_text broadcast_binary request_broadcast
  broadcast-Puts message filter client s d = (
    (λ k. ground (arith, at (λ c. enqueue_text lws message) k), refl, refl),
    (
      λ k. ground (arith, at (λ c o. if memb c filter then o else enqueue_text lws message o) k),
      refl,
      refl,
    ),
    (
      λ k. ground (arith, at (λ c o. if client == c then enqueue_text lws message o else o) k),
      refl,
      refl,
    ),
    (λ k. ground (arith, at (λ c. enqueue_binary lws message) k), refl, refl),
  )
    where
      at :
          (f : ℕ → Connection lws.Wsi → Connection lws.Wsi) (k : ℕ)
          → for_clients lws f (clients s.ws_connections) s.objects k
            ≡ (if memb k (clients s.ws_connections) then f k (s.objects k) else s.objects k)
      at f k = for_clients-at lws f (clients s.ws_connections) s.objects k d

  handle_write-at :
      (wsi client : ℕ) (s : Server http lws.Wsi A)
      → find wsi s.ws_connections ≡ some client
      → handle_write lws wsi s
        ≡ ok (record s { objects = modify lws client (write_messages lws) s.objects })
  unfolding handle_write connection_at
  handle_write-at wsi client s f = ground arith

  -- A text that is broadcast is written behind all that waited before: when the connection of a
  -- client may write next, the front of its queue and the text behind it is written in order, and
  -- the rest waits on. All is written unless the socket takes no more, and then the connection asks
  -- to be called again. The clients of the server are distinct.
  pub broadcast_text-Written :
      (message : Text) (wsi client : ℕ) (s : Server http lws.Wsi A)
      → Distinct (clients s.ws_connections)
      → find wsi s.ws_connections ≡ some client
      → (s' : Server http lws.Wsi A) × (handle_write lws wsi (broadcast_text lws message s) ≡ ok s')
        × Written lws message (s.objects client) (s'.objects client)
  broadcast_text-Written message wsi client s d f =
      let b = broadcast_text lws message s in
      let (queued, _, same) = (broadcast-Puts message [] client s d).0 in
      let there : find wsi b.ws_connections ≡ some client = rw same f in
      let put : b.objects client ≡ enqueue_text lws message (s.objects client) =
        ground (arith, queued client, find-clients wsi client s.ws_connections f) in
      (
        record b { objects = modify lws client (write_messages lws) b.objects },
        handle_write-at wsi client b there,
        write_messages-Written lws message (s.objects client) _
            (rw (← put) (unfold modify in ground arith)),
      )
