-- ===== src/Ws/Connection/Fifo.antt =====
-- The order in which a connection writes its messages.
use rockets.Prelude.{
  Text, true, List, [], ◌∷◌, ◌++◌, ◌≡◌, refl, ◌⊎◌, inl, inr, ap, arith, Bool-cases,
}
use rockets.Ws.Types.{Format, Lws}
use rockets.Ws.Connection.{Connection, write, write_loop, write_messages, request_write}

-- All of a list of messages written, one after the other.
unfoldable pub write_all : (lws : Lws) → List (Text × Format) → lws.Wsi → lws.Wsi
unfolding write
write_all lws [] w = w
write_all lws (m ∷ ms) w = write_all lws ms (write lws m w)

module _ (lws : Lws) where
  -- The messages that were written, the ones that are left, and why the loop stopped.
  loop :
      (out : List (Text × Format)) (w : lws.Wsi)
      → (sent rest : List (Text × Format)) × (out ≡ sent ++ rest)
        × (write_loop lws out w ≡ record { out = rest; wsi = write_all lws sent w })
        × ((rest ≡ []) ⊎ (lws.send_pipe_choked (write_all lws sent w) ≡ true))
  unfolding write_loop write_all
  loop [] w = ([], [], refl, refl, inl refl)
  loop (m ∷ out) w = elim (Bool-cases (lws.send_pipe_choked w)) [
    | inl choked ↦ ([], m ∷ out, refl, rw choked refl, inr choked)
    | inr free ↦
        let (sent, rest, split, same, why) = loop out (write lws m w) in
        (m ∷ sent, rest, ap (λ ms. m ∷ ms) split, rw free same, why)
  ]

  -- Writing takes messages off the front of the queue and writes them in that order, none lost or
  -- twice. It stops only where the queue is empty or the socket takes no more, and in the second
  -- case it asks to be called again.
  pub write_messages-fifo :
      (c : Connection lws.Wsi)
      → (sent rest : List (Text × Format)) × (c.out ≡ sent ++ rest)
        × ((write_messages lws c ≡ record { out = rest; wsi = write_all lws sent c.wsi })
              × (rest ≡ [])
            ⊎ (write_messages lws c
                ≡ record { out = rest; wsi = lws.callback_on_writable (write_all lws sent c.wsi) })
              × (lws.send_pipe_choked (write_all lws sent c.wsi) ≡ true))
  unfolding write_messages request_write
  write_messages-fifo c =
      let (sent, rest, split, same, why) = loop c.out c.wsi in
      (sent, rest, split, stopped sent rest same why)
    where
      stopped :
          (sent rest : List (Text × Format))
          → write_loop lws c.out c.wsi ≡ record { out = rest; wsi = write_all lws sent c.wsi }
          → (rest ≡ []) ⊎ (lws.send_pipe_choked (write_all lws sent c.wsi) ≡ true)
          → (write_messages lws c ≡ record { out = rest; wsi = write_all lws sent c.wsi })
              × (rest ≡ [])
            ⊎ (write_messages lws c
                ≡ record { out = rest; wsi = lws.callback_on_writable (write_all lws sent c.wsi) })
              × (lws.send_pipe_choked (write_all lws sent c.wsi) ≡ true)
      stopped sent [] same why = inl (rw (same, write_messages) refl, refl)
      stopped sent (m ∷ rest) same (inr choked) = inr (rw (same, write_messages) refl, choked)
      stopped sent (m ∷ rest) same (inl none_left) = ground arith
