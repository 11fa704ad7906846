-- ===== src/Endpoint.antt =====
-- internal/endpoint/endpoint.go: Parse and Listen. Texts are lists of code points.
pub mod Schemes
use csi_test.Prelude.{
  ℕ, Bool, ◌||◌, List, [], ◌∷◌, Option, none, some, is_empty, ◌++◌, if◌then◌else◌,
}
use csi_test.GoText.{codes_eq, to_lower, has_prefix}

abbrev pub separator : List ℕ
separator = b':' ∷ b'/' ∷ b'/' ∷ []

abbrev pub unix : List ℕ
unix = b'u' ∷ b'n' ∷ b'i' ∷ b'x' ∷ []

abbrev pub tcp : List ℕ
tcp = b't' ∷ b'c' ∷ b'p' ∷ []

abbrev pub drop_separator : List ℕ → List ℕ
drop_separator (c ∷ d ∷ e ∷ s) = s
drop_separator s = []

-- strings.SplitN(s, "://", 2), where the separator occurs.
unfoldable pub split_separator : List ℕ → List ℕ × List ℕ
unfolding has_prefix
split_separator [] = ([], [])
split_separator (c ∷ s) =
    let (front, back) = split_separator s in
    if has_prefix (c ∷ s) separator then ([], drop_separator (c ∷ s)) else (c ∷ front, back)

-- strings.HasPrefix(strings.ToLower(ep), "unix://") and the same with "tcp://".
unfoldable pub has_scheme : List ℕ → Bool
unfolding to_lower has_prefix
has_scheme ep =
    has_prefix (to_lower ep) (unix ++ separator) || has_prefix (to_lower ep) (tcp ++ separator)

-- The protocol and the address; none where there is an error.
unfoldable pub parse : List ℕ → Option (List ℕ × List ℕ)
unfolding has_scheme split_separator
parse ep =
    if has_scheme ep
    then (let (scheme, address) = split_separator ep in
        if is_empty address then none else some (scheme, address))
    else some (unix, ep)

-- What os.Remove comes to.
pub data Removal : Type 0 where
  removed absent remove_failed : Removal

-- os.Remove of a path, and whether net.Listen succeeds for a protocol and an address.
pub record Network : Type 0 where
  pub remove : List ℕ → Removal
  pub can_listen : List ℕ → List ℕ → Bool

-- What a call of Listen does to the host, in order.
pub record Listener : Type 0 where
  pub protocol : List ℕ
  pub address : List ℕ

pub data Effect : Type 0 where
  removes_socket : List ℕ → Effect
  opens : Listener → Effect

-- The function that Listen returns to clean up: nil, one that does nothing, or one that removes a
-- socket.
pub data CleanUp : Type 0 where
  nil_function no_operation : CleanUp
  remove_socket : List ℕ → CleanUp

pub data ListenError : Type 0 where
  invalid_endpoint cannot_remove cannot_listen : ListenError

pub record Listened : Type 0 where
  pub listener : Option Listener
  pub clean_up : CleanUp
  pub err : Option ListenError
  pub effects : List Effect

-- net.Listen, after the effects of os.Remove.
abbrev pub open_listener : Network → List ℕ → List ℕ → CleanUp → List Effect → Listened
open_listener n proto addr clean_up effects =
    let l : Listener = record { protocol = proto; address = addr } in
    if n.can_listen proto addr
    then record {
      listener = some l;
      clean_up = clean_up;
      err = none;
      effects = effects ++ opens l ∷ [];
    }
    else record {
      listener = none;
      clean_up = clean_up;
      err = some cannot_listen;
      effects = effects;
    }

abbrev pub failed_with : ListenError → Listened
failed_with err = record { listener = none; clean_up = nil_function; err = some err; effects = [] }

-- A socket, by what os.Remove comes to.
abbrev pub listen_unix : Network → List ℕ → List ℕ → Removal → Listened
listen_unix n proto addr remove_failed = failed_with cannot_remove
listen_unix n proto addr _ =
    open_listener n proto addr (remove_socket addr) (removes_socket addr ∷ [])

-- Listen once the endpoint is parsed; the address of a socket gets a slash in front.
abbrev pub listen_at : Network → List ℕ → List ℕ → Listened
listen_at n proto addr =
    if codes_eq proto unix
    then listen_unix n proto (b'/' ∷ addr) (n.remove (b'/' ∷ addr))
    else open_listener n proto addr no_operation []

unfoldable pub listen : Network → List ℕ → Listened
unfolding parse codes_eq
listen n endpoint = elim (parse endpoint) [
  | none ↦ failed_with invalid_endpoint
  | some p ↦ listen_at n p.0 p.1
]
