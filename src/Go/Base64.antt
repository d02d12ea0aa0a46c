-- ===== src/Go/Base64.antt =====
-- Package encoding/base64: its standard encoding, a parameter. `none` is an error of Decode.
use objconv.Prelude.{ℕ, List, Option}

pub record Base64 : Type 0 where
  pub encode : List ℕ → List ℕ
  pub decode : List ℕ → Option (List ℕ)
