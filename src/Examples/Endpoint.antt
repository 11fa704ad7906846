-- ===== src/Examples/Endpoint.antt =====
-- An endpoint in capitals.
use csi_test.Prelude.{◌≡◌, refl, [], ◌∷◌, ◌++◌, some}
use csi_test.GoText.{to_lower, lower_code}
use csi_test.Endpoint.{separator, unix, parse}
use csi_test.Endpoint.Schemes.{parse-unix}

capitals-unix : to_lower (b'U' ∷ b'N' ∷ b'I' ∷ b'X' ∷ []) ≡ unix
unfolding to_lower lower_code
capitals-unix = refl

parse-unix_example :
    parse ((b'U' ∷ b'N' ∷ b'I' ∷ b'X' ∷ []) ++ separator ++ b's' ∷ [])
    ≡ some (b'U' ∷ b'N' ∷ b'I' ∷ b'X' ∷ [], b's' ∷ [])
parse-unix_example = parse-unix (b'U' ∷ b'N' ∷ b'I' ∷ b'X' ∷ []) (b's' ∷ []) capitals-unix
