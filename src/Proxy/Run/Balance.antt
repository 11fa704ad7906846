-- ===== src/Proxy/Run/Balance.antt =====
-- Run and Close leave no listener and no socket behind.
use csi_test.Prelude.{
  ℕ, Bool, true, false, ◌&&◌, ◌≡◌, refl, List, [], ◌∷◌, ◌++◌, Option, none, some, arith,
  if◌then◌else◌,
}
use csi_test.GoText.{codes_eq}
use csi_test.Endpoint.{
  unix, Network, Removal, removed, absent, remove_failed, Listener, Listened, no_operation,
  remove_socket, ListenError, invalid_endpoint, cannot_remove, cannot_listen, removes_socket, opens,
  failed_with, listen_unix, open_listener, listen_at, listen, parse,
}
use csi_test.Proxy.Run.{Effect, of_listen, closes, cleans_up, Started, close, run, after_first}

-- What a call of Listen comes to.
data Shape : Listened → Type 0 where
  nothing : (err : ListenError) → Shape (failed_with err)
  open_other :
      (l : Listener)
      → codes_eq l.protocol unix ≡ false
      → Shape (record {
        listener = some l;
        clean_up = no_operation;
        err = none;
        effects = opens l ∷ [];
      })
  open_socket :
      (l : Listener)
      → codes_eq l.protocol unix ≡ true
      → Shape (record {
        listener = some l;
        clean_up = remove_socket l.address;
        err = none;
        effects = removes_socket l.address ∷ opens l ∷ [];
      })
  unopened :
      (err : ListenError)
      → Shape (record { listener = none; clean_up = no_operation; err = some err; effects = [] })
  unopened_socket :
      (err : ListenError) (path : List ℕ)
      → Shape (record {
        listener = none;
        clean_up = remove_socket path;
        err = some err;
        effects = removes_socket path ∷ [];
      })

unix-Shape :
    (can : Bool) (n : Network) (proto addr : List ℕ)
    → codes_eq proto unix ≡ true
    → n.can_listen proto addr ≡ can
    → Shape (open_listener n proto addr (remove_socket addr) (removes_socket addr ∷ []))
unix-Shape true n proto addr h p =
    rw (p) (open_socket (record { protocol = proto; address = addr }) h)
unix-Shape false n proto addr h p = rw (p) (unopened_socket cannot_listen addr)

other-Shape :
    (can : Bool) (n : Network) (proto addr : List ℕ)
    → codes_eq proto unix ≡ false
    → n.can_listen proto addr ≡ can
    → Shape (open_listener n proto addr no_operation [])
other-Shape true n proto addr h p =
    rw (p) (open_other (record { protocol = proto; address = addr }) h)
other-Shape false n proto addr h p = rw (p) (unopened cannot_listen)

removal-Shape :
    (r : Removal) (n : Network) (proto addr : List ℕ)
    → codes_eq proto unix ≡ true
    → Shape (listen_unix n proto addr r)
removal-Shape removed n proto addr h = unix-Shape (n.can_listen proto addr) n proto addr h refl
removal-Shape absent n proto addr h = unix-Shape (n.can_listen proto addr) n proto addr h refl
removal-Shape remove_failed n proto addr h = nothing cannot_remove

at-Shape :
    (is_unix : Bool) (n : Network) (proto addr : List ℕ)
    → codes_eq proto unix ≡ is_unix
    → Shape (listen_at n proto addr)
at-Shape true n proto addr h =
    rw (h) (removal-Shape (n.remove (b'/' ∷ addr)) n proto (b'/' ∷ addr) h)
at-Shape false n proto addr h = rw (h) (other-Shape (n.can_listen proto addr) n proto addr h refl)

parsed-Shape :
    (p : Option (List ℕ × List ℕ)) (n : Network) (endpoint : List ℕ)
    → parse endpoint ≡ p
    → Shape (listen n endpoint)
unfolding listen
parsed-Shape none n endpoint h = rw (h, listen) (nothing invalid_endpoint)
parsed-Shape (some (proto, addr)) n endpoint h =
    rw (h, listen) (at-Shape (codes_eq proto unix) n proto addr refl)

listen-Shape : (n : Network) (endpoint : List ℕ) → Shape (listen n endpoint)
listen-Shape n endpoint = parsed-Shape (parse endpoint) n endpoint refl

-- The listeners opened and those closed, in order.
unfoldable pub opened : List Effect → List Listener
opened [] = []
opened (of_listen (opens l) ∷ effects) = l ∷ opened effects
opened (_ ∷ effects) = opened effects

unfoldable pub closed : List Effect → List Listener
closed [] = []
closed (closes l ∷ effects) = l ∷ closed effects
closed (_ ∷ effects) = closed effects

-- Whether there is a socket at a path after some effects, where `before` says it of the time before.
unfoldable pub has_socket : List ℕ → Bool → List Effect → Bool
has_socket path before [] = before
has_socket path before (of_listen (opens l) ∷ effects) =
    let now = if codes_eq l.protocol unix && codes_eq l.address path then true else before in
    has_socket path now effects
has_socket path before (of_listen (removes_socket p) ∷ effects) =
    has_socket path (if codes_eq p path then false else before) effects
has_socket path before (cleans_up p ∷ effects) =
    has_socket path (if codes_eq p path then false else before) effects
has_socket path before (_ ∷ effects) = has_socket path before effects

-- The effects of a Run, and of the Close of what it returns.
abbrev pub and_close : Started → List Effect
and_close r = elim r.proxy [ none ↦ r.effects | some p ↦ r.effects ++ close p ]

record Clean (path : List ℕ) (r : Started) : Type 0 where
  balanced : opened (and_close r) ≡ closed (and_close r)
  gone : has_socket path false (and_close r) ≡ false

Shape-Clean :
    (path : List ℕ) (r1 r2 : Listened) → Shape r1 → Shape r2 → Clean path (after_first r1 r2)
unfolding close opened closed has_socket
Shape-Clean path _ _ (nothing e) s = ground arith
Shape-Clean path _ _ (unopened e) s = ground arith
Shape-Clean path _ _ (unopened_socket e p) s = ground arith
Shape-Clean path _ _ (open_other l h) (nothing e) = ground (arith, h)
Shape-Clean path _ _ (open_other l h) (unopened e) = ground (arith, h)
Shape-Clean path _ _ (open_other l h) (unopened_socket e p) = ground (arith, h)
Shape-Clean path _ _ (open_other l h) (open_other m k) = ground (arith, h, k)
Shape-Clean path _ _ (open_other l h) (open_socket m k) = ground (arith, h, k)
Shape-Clean path _ _ (open_socket l h) (nothing e) = ground (arith, h)
Shape-Clean path _ _ (open_socket l h) (unopened e) = ground (arith, h)
Shape-Clean path _ _ (open_socket l h) (unopened_socket e p) = ground (arith, h)
Shape-Clean path _ _ (open_socket l h) (open_other m k) = ground (arith, h, k)
Shape-Clean path _ _ (open_socket l h) (open_socket m k) = ground (arith, h, k)

-- Whatever the endpoints are and whatever fails: a Run that returns an error has closed the listeners
-- that it has opened, in order, and a Run that returns a proxy has left that to its Close; and where
-- there has been no socket before, there is none then, where os.Remove does not fail in a clean-up.
pub run-close :
    (n1 n2 : Network) (endpoint1 endpoint2 path : List ℕ)
    → let effects = and_close (run n1 n2 endpoint1 endpoint2) in
      (opened effects ≡ closed effects) × (has_socket path false effects ≡ false)
unfolding run
run-close n1 n2 endpoint1 endpoint2 path =
    let clean =
      Shape-Clean path (listen n1 endpoint1) (listen n2 endpoint2) (listen-Shape n1 endpoint1)
        (listen-Shape n2 endpoint2) in
    (clean.balanced, clean.gone)
