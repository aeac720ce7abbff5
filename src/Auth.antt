-- ===== src/Auth.antt =====
-- pkg/auth/middleware.go: the middleware chain and the API key.
use apexio.Base.{
  Bool-cases, Bool, false, ℕ, zero, suc, ◌≡◌, ◌≢◌, refl, sym, ◌∙◌, ap, inl, inr, not, ◌||◌, Option,
  none, some, List, [], ◌∷◌, ◌++◌, length, get_elem?, arith, if◌then◌else◌,
}
use apexio.Base.Text.{Text, codes, is_empty, text_eq, text_eq_iff, trim_space}
use apexio.Base.Text.Trim.{trim_space_idem}
use apexio.Http.{Request, Response, Handler, text_reply}

abbrev pub Middleware : Type 0 → Type 0
Middleware S = Handler S → Handler S

-- The response to a request without the key.
abbrev pub unauthorized : Response
unauthorized = record {
  status = 401;
  content_type = codes "application/json";
  reply = text_reply (codes "{\"error\":\"unauthorized\"}");
}

-- The header that is read, with its default.
unfoldable pub key_header : Text → Text
key_header header = if is_empty header then codes "X-API-Key" else header

module _ {S : Type 0} where
  -- One turn of the loop of `Chain`, which skips nil.
  abbrev pub apply : Option (Middleware S) → Handler S → Handler S
  apply none h = h
  apply (some m) h = m h

  abbrev slot : ℕ → List (Option (Middleware S)) → Option (Middleware S)
  slot i chain = elim (get_elem? i chain) [ none ↦ none | some m ↦ m ]

  -- The loop of `Chain` from index `i - 1` down.
  unfoldable pub chain_from : ℕ → Handler S → List (Option (Middleware S)) → Handler S
  chain_from zero h ms = h
  chain_from (suc i) h ms = chain_from i (apply (slot i ms) h) ms

  unfoldable pub chain : Handler S → List (Option (Middleware S)) → Handler S
  chain h ms = chain_from (length ms) h ms

  -- `APIKey`, where `none` is nil.
  unfoldable pub api_key : Text → Text → Option (Middleware S)
  api_key header expected =
      if is_empty expected
      then none
      else some (λ next r s.
        let got = trim_space (r.header (key_header header)) in
        if is_empty got || not (text_eq got expected) then (unauthorized, s) else next r s)

  chain_from-cons :
      (i : ℕ) (h : Handler S) (m : Option (Middleware S)) (ms : List (Option (Middleware S)))
      → chain_from (suc i) h (m ∷ ms) ≡ apply m (chain_from i h ms)
  unfolding chain_from
  chain_from-cons zero h m ms = refl
  chain_from-cons (suc i) h m ms = chain_from-cons i (apply (slot i ms) h) m ms

  chain-cons :
      (h : Handler S) (m : Option (Middleware S)) (ms : List (Option (Middleware S)))
      → chain h (m ∷ ms) ≡ apply m (chain h ms)
  unfolding chain
  chain-cons h m ms = chain_from-cons (length ms) h m ms

  -- A chain of two parts is the first around the second, outermost first.
  pub chain-append :
      (h : Handler S) (ms ns : List (Option (Middleware S)))
      → chain h (ms ++ ns) ≡ chain (chain h ns) ms
  unfolding chain chain_from
  chain-append h [] ns = refl
  chain-append h (m ∷ ms) ns =
      chain-cons h m (ms ++ ns)
      ∙ ap (apply m) (chain-append h ms ns)
      ∙ sym (chain-cons (chain h ns) m ms)

-- No key is expected, or the request has it, up to the white space around it.
unfoldable pub admits : Text → Text → Request → Bool
admits header expected r =
    is_empty expected || text_eq (trim_space (r.header (key_header header))) expected

module _ {S : Type 0} where
  -- Behind the API key, a request is answered by the handler if no key is expected or it has the
  -- key, up to white space around it; any other is answered with 401 and changes nothing.
  pub chain-api_key :
      (header expected : Text) (h : Handler S) (r : Request) (s : S)
      → chain h (api_key header expected ∷ []) r s
        ≡ (if admits header expected r then h r s else (unauthorized, s))
  unfolding chain chain_from api_key admits text_eq
  chain-api_key header [] h r s = refl
  chain-api_key header (c ∷ expected) h r s = go (trim_space (r.header (key_header header)))
    where
      go :
          (got : Text)
          → (if is_empty got || not (text_eq got (c ∷ expected)) then (unauthorized, s) else h r s)
            ≡ (if text_eq got (c ∷ expected) then h r s else (unauthorized, s))
      go [] = refl
      go (d ∷ got) = ground arith

  -- If the expected key is not empty and has white space around it, every request is answered with
  -- 401.
  pub chain-api_key_padded :
      (header expected : Text) (h : Handler S) (r : Request) (s : S)
      → trim_space expected ≢ expected
      → expected ≢ []
      → chain h (api_key header expected ∷ []) r s ≡ (unauthorized, s)
  unfolding admits
  chain-api_key_padded header [] h r s padded given = elim (given refl) [ ]
  chain-api_key_padded header (c ∷ expected) h r s padded given =
      chain-api_key header (c ∷ expected) h r s
      ∙ ap (λ b. if b then h r s else (unauthorized, s)) refused
    where
      refused : text_eq (trim_space (r.header (key_header header))) (c ∷ expected) ≡ false
      refused =
          elim (Bool-cases (text_eq (trim_space (r.header (key_header header))) (c ∷ expected))) [
            | inl same ↦ elim (padded (idem ((text_eq_iff _ _).0 same))) [ ]
            | inr other ↦ other
          ]
        where
          idem :
              trim_space (r.header (key_header header)) ≡ c ∷ expected
              → trim_space (c ∷ expected) ≡ c ∷ expected
          idem same = sym (ap trim_space same) ∙ trim_space_idem _ ∙ same
