-- ===== src/Server/Clients.antt =====
-- The clients in the map of WebSocket connections, and that no two entries have one.
use rockets.Prelude.{ℕ, ◌≡◌, refl, false, ◌||◌, none, List, [], ◌∷◌, memb, Distinct, ◌==◌, arith}
use rockets.Prelude.Assoc.{find, put, emplace, erase, nat_eq}
use rockets.Server.{clients}

memb-put :
    (wsi c k : ℕ) (m : List (ℕ × ℕ))
    → find wsi m ≡ none
    → memb k (clients (put wsi c m)) ≡ (memb k (clients m) || c == k)
unfolding put find clients
memb-put wsi c k [] h = ground arith
memb-put wsi c k ((w, d) ∷ m) h = ground (arith, memb-put wsi c k m)

put-Distinct :
    (wsi c : ℕ) (m : List (ℕ × ℕ))
    → find wsi m ≡ none
    → memb c (clients m) ≡ false
    → Distinct (clients m)
    → Distinct (clients (put wsi c m))
unfolding put find clients
put-Distinct wsi c [] h new v = (refl, tt)
put-Distinct wsi c ((w, d) ∷ m) h new v = ground (arith, put-Distinct wsi c m, memb-put wsi c d m)

memb-erase :
    (wsi k : ℕ) (m : List (ℕ × ℕ))
    → memb k (clients m) ≡ false
    → memb k (clients (erase wsi m)) ≡ false
unfolding erase clients
memb-erase wsi k [] h = refl
memb-erase wsi k ((w, d) ∷ m) h = ground (arith, memb-erase wsi k m)

pub erase-Distinct :
    (wsi : ℕ) (m : List (ℕ × ℕ)) → Distinct (clients m) → Distinct (clients (erase wsi m))
unfolding erase clients
erase-Distinct wsi [] v = tt
erase-Distinct wsi ((w, d) ∷ m) v = ground (arith, erase-Distinct wsi m, memb-erase wsi d m)

pub emplace-Distinct :
    (wsi c : ℕ) (m : List (ℕ × ℕ))
    → memb c (clients m) ≡ false
    → Distinct (clients m)
    → Distinct (clients (emplace wsi c m))
unfolding emplace
emplace-Distinct wsi c m new v = ground (arith, put-Distinct wsi c m)
