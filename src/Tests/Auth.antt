-- ===== src/Tests/Auth.antt =====
-- pkg/auth at concrete inputs.
use apexio.Base.{ℕ, ◌+◌, ◌≡◌, ◌≢◌, none, [], ◌∷◌, if◌then◌else◌}
use apexio.Base.Text.{Text, codes, text_eq, trim_space}
use apexio.Http.{Request, Handler, write_header}
use apexio.Auth.{chain, api_key, admits, unauthorized, chain-api_key, chain-api_key_padded}
use apexio.Tests.Data.{noon}

-- A handler that counts its requests.
abbrev counting : Handler ℕ
counting r n = (write_header 200, n + 1)

abbrev request : Text → Request
request key = record {
  method = codes "POST";
  path = codes "/api/v1/log";
  header = λ name. if text_eq name (codes "X-API-Key") then key else [];
  body = record { bytes = []; failure = none };
  ctx = λ i. none;
  clock = λ i. noon;
}

chain-api_key_example :
    chain counting (api_key [] (codes "secret") ∷ []) (request (codes " secret ")) 4 ≡ (
      if admits [] (codes "secret") (request (codes " secret "))
      then (write_header 200, 5)
      else (unauthorized, 4))
chain-api_key_example = chain-api_key [] (codes "secret") counting (request (codes " secret ")) 4

chain-api_key_padded_example :
    chain counting (api_key [] (codes "secret ") ∷ []) (request (codes "secret ")) 4
    ≡ (unauthorized, 4)
chain-api_key_padded_example =
    chain-api_key_padded [] (codes "secret ") counting (request (codes "secret ")) 4 padded
      (λ same. cc)
  where
    padded : trim_space (codes "secret ") ≢ codes "secret "
    padded = unfold trim_space in (λ same. cc)
