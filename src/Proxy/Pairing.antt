-- ===== src/Proxy/Pairing.antt =====
-- The connections of the two endpoints are joined in the order in which they come in.
use csi_test.Prelude.{
  ℕ, zero, suc, ◌<◌, Bool, true, false, ◌≡◌, refl, List, [], ◌∷◌, length, arith, if◌then◌else◌,
}
use csi_test.Proxy.{
  Incoming, connects, fails, Accepted, got, shut_down, blocked, accept, Action, copy,
  close_connection, after_first, after_second, serve_fuel, serve,
}

-- The connections that come in before the context is done, and whether it is.
unfoldable pub connections : List Incoming → List ℕ
connections [] = []
connections (connects c ∷ s) = c ∷ connections s
connections (fails true ∷ s) = []
connections (fails false ∷ s) = connections s

unfoldable pub is_done : List Incoming → Bool
is_done [] = false
is_done (connects c ∷ s) = is_done s
is_done (fails true ∷ s) = true
is_done (fails false ∷ s) = is_done s

-- The connections joined one by one; the next one of the first endpoint is closed if the second is
-- done, and waits otherwise.
unfoldable pub joined : List ℕ → List ℕ → Bool → List Action
joined [] ds done = []
joined (c ∷ cs) [] done = if done then close_connection c ∷ [] else []
joined (c ∷ cs) (d ∷ ds) done = copy c d ∷ copy d c ∷ joined cs ds done

-- What `accept` finds, by what is left of the connections.
abbrev Found : List Incoming → Accepted → Type 0
Found s (got c rest) =
    (connections s ≡ c ∷ connections rest) × (is_done s ≡ is_done rest) × (length rest < length s)
Found s shut_down = (connections s ≡ []) × (is_done s ≡ true)
Found s blocked = (connections s ≡ []) × (is_done s ≡ false)

accept-Found : (s : List Incoming) → Found s (accept s)
unfolding accept connections is_done
accept-Found [] = (refl, refl)
accept-Found (connects c ∷ s) = (refl, refl, omega arith)
accept-Found (fails true ∷ s) = (refl, refl)
accept-Found (fails false ∷ s) = later (accept s) (accept-Found s)
  where
    later : (a : Accepted) → Found s a → Found (fails false ∷ s) a
    later (got c rest) (p, q, r) = (p, q, omega (arith, r))
    later shut_down h = h
    later blocked h = h

-- The rest of the loop joins what is left.
abbrev Joins : (List Incoming → List Incoming → List Action) → List Incoming → Type 0
Joins loop s1 =
    (s2 : List Incoming) → loop s1 s2 ≡ joined (connections s1) (connections s2) (is_done s2)

second-joined :
    (loop : List Incoming → List Incoming → List Action) (c : ℕ) (r1 s2 : List Incoming)
    (a : Accepted)
    → Found s2 a
    → Joins loop r1
    → after_second c (loop r1) a ≡ joined (c ∷ connections r1) (connections s2) (is_done s2)
unfolding joined
second-joined loop c r1 s2 shut_down (p, q) h = rw (p, q) refl
second-joined loop c r1 s2 blocked (p, q) h = rw (p, q) refl
second-joined loop c r1 s2 (got d r2) (p, q, r) h = rw (p, q, h r2) refl

first-joined :
    (loop : List Incoming → List Incoming → List Action) (s1 s2 : List Incoming) (a : Accepted)
    → Found s1 a
    → ((r1 : List Incoming) → length r1 < length s1 → Joins loop r1)
    → after_first loop a s2 ≡ joined (connections s1) (connections s2) (is_done s2)
unfolding after_first joined
first-joined loop s1 s2 shut_down (p, q) h = rw (p) refl
first-joined loop s1 s2 blocked (p, q) h = rw (p) refl
first-joined loop s1 s2 (got c r1) (p, q, r) h =
    rw (p) (second-joined loop c r1 s2 (accept s2) (accept-Found s2) (h r1 r))

fuel-joined : (fuel : ℕ) (s1 : List Incoming) → length s1 < fuel → Joins (serve_fuel fuel) s1
unfolding serve_fuel
fuel-joined zero s1 enough s2 = absurd (omega (arith, enough))
fuel-joined (suc fuel) s1 enough s2 =
    first-joined (serve_fuel fuel) s1 s2 (accept s1) (accept-Found s1)
      λ r1 shorter. fuel-joined fuel r1 (omega (arith, enough, shorter))

-- Whatever comes in at the two endpoints, the loop joins the n-th connection of the one with the n-th
-- of the other, in both directions, until one of them has none left; the next connection of the first,
-- if there is one, is closed exactly if the second endpoint is shut down.
pub serve-joined :
    (s1 s2 : List Incoming) → serve s1 s2 ≡ joined (connections s1) (connections s2) (is_done s2)
unfolding serve
serve-joined s1 s2 = fuel-joined (suc (length s1)) s1 (omega arith) s2
