-- ===== src/Http/Mux.antt =====
-- `http.ServeMux` with patterns of a method and a fixed path, as both main functions of cmd use it.
use mathlib.Core.Path.{subst}
use mathlib.Core.Option.{some-injective}
use apexio.Base.{
  ℕ, ◌⊎◌, ◌≡◌, refl, ◌==◌, Bool, true, false, ◌&&◌, ◌||◌, Bool-cases, Option, Option-cases, none,
  some, List, [], ◌∷◌, ◌++◌, inl, inr, All, arith, if◌then◌else◌,
}
use apexio.Base.Text.{Text, codes, is_empty, text_eq, text_eq_iff, split}
use apexio.Http.{Request, Response, Handler, text_reply, moved_reply}

-- What `path.Clean` keeps of the parts of a path, the last first.
unfoldable pub clean_parts : List Text → List Text → List Text
clean_parts kept [] = kept
clean_parts [] (part ∷ parts) =
    clean_parts
      (if is_empty part || text_eq part (codes ".") || text_eq part (codes "..")
        then []
        else part ∷ [])
      parts
clean_parts (last ∷ kept) (part ∷ parts) =
    let kept' : List Text =
      if is_empty part || text_eq part (codes ".")
      then last ∷ kept
      else if text_eq part (codes "..")
      then kept
      else part ∷ last ∷ kept in
    clean_parts kept' parts

abbrev join_back : List Text → Text
join_back [] = []
join_back (last ∷ kept) = let rest = join_back kept in rest ++ b'/' ∷ last

abbrev ends_in_slash : Text → Bool
ends_in_slash [] = false
ends_in_slash (c ∷ []) = c == b'/'
ends_in_slash (c ∷ d ∷ s) = ends_in_slash (d ∷ s)

-- `cleanPath` of net/http
unfoldable pub clean_path : Text → Text
clean_path p =
    let np = join_back (clean_parts [] (split b'/' p)) in
    if is_empty np then codes "/" else if ends_in_slash p then np ++ codes "/" else np

-- A pattern, and its handler.
pub record Route (S : Type 0) : Type 0 where
  pub method : Text
  pub path : Text
  pub handler : Handler S

-- A pattern for GET takes HEAD too.
abbrev pub takes : Text → Text → Bool
takes pattern method =
    text_eq pattern method || (text_eq pattern (codes "GET") && text_eq method (codes "HEAD"))

abbrev pub not_found : Response
not_found = record {
  status = 404;
  content_type = codes "text/plain; charset=utf-8";
  reply = text_reply (codes "404 page not found\n");
}

abbrev pub not_allowed : Response
not_allowed = record {
  status = 405;
  content_type = codes "text/plain; charset=utf-8";
  reply = text_reply (codes "Method Not Allowed\n");
}

-- The answers of the mux itself.
abbrev pub OwnStatus : ℕ → Type 0
OwnStatus n = (n ≡ 301) ⊎ ((n ≡ 404) ⊎ (n ≡ 405))

abbrev pub moved : Text → Response
moved path = record { status = 301; content_type = []; reply = moved_reply path }

both : (a b : Bool) → a && b ≡ true → (a ≡ true) × (b ≡ true)
both a b h = ground arith

module _ {S : Type 0} where
  -- The route of a request, if there is one.
  unfoldable pub route_of : List (Route S) → Request → Option (Route S)
  route_of [] r = none
  route_of (t ∷ ts) r =
      let rest = route_of ts r in
      if text_eq t.path r.path && takes t.method r.method then some t else rest

  -- Whether a route has the path.
  unfoldable pub has_path : List (Route S) → Text → Bool
  has_path [] path = false
  has_path (t ∷ ts) path = let rest = has_path ts path in text_eq t.path path || rest

  abbrev pub unrouted : List (Route S) → Request → Response
  unrouted ts r = if has_path ts r.path then not_allowed else not_found

  -- `ServeHTTP` of the mux: a path that is not clean is redirected, unless the method is CONNECT.
  unfoldable pub serve_mux : List (Route S) → Handler S
  serve_mux ts r s =
      if text_eq r.method (codes "CONNECT") || text_eq (clean_path r.path) r.path
      then elim (route_of ts r) [ some t ↦ t.handler r s | none ↦ (unrouted ts r, s) ]
      else (moved (clean_path r.path), s)

  -- A route that is found is one of them, and takes the request.
  route_of-All :
      (P : Route S → Type 0) (ts : List (Route S)) (r : Request) (t : Route S)
      → All P ts
      → route_of ts r ≡ some t
      → P t × (t.path ≡ r.path) × (takes t.method r.method ≡ true)
  unfolding route_of
  route_of-All P [] r t all h = cc
  route_of-All P (v ∷ ts) r t (pv, all) h =
      elim (Bool-cases (text_eq v.path r.path && takes v.method r.method)) [
        | inl hit ↦
            subst (λ x. P x × (x.path ≡ r.path) × (takes x.method r.method ≡ true))
              (some-injective _ _ (rw hit at h))
              (
                pv,
                (text_eq_iff v.path r.path).0 (both (text_eq v.path r.path) _ hit).0,
                (both (text_eq v.path r.path) _ hit).1,
              )
        | inr miss ↦ route_of-All P ts r t all (rw miss at h)
      ]

  unrouted-OwnStatus : (ts : List (Route S)) (r : Request) → OwnStatus (unrouted ts r).status
  unrouted-OwnStatus ts r = elim (Bool-cases (has_path ts r.path)) [
    | inl other ↦ rw other (inr (inr refl))
    | inr unknown ↦ rw unknown (inr (inl refl))
  ]

  -- What a response and a state are, if every route gives it to the requests that it takes and the
  -- mux itself does.
  pub serve_mux-cases :
      (Q : Response × S → Type 0) (ts : List (Route S)) (r : Request) (s : S)
      → All
          (λ (t : Route S). t.path ≡ r.path → takes t.method r.method ≡ true → Q (t.handler r s))
          ts
      → ((resp : Response) → OwnStatus resp.status → Q (resp, s))
      → Q (serve_mux ts r s)
  unfolding serve_mux
  serve_mux-cases Q ts r s routed own =
      elim (Bool-cases (text_eq r.method (codes "CONNECT") || text_eq (clean_path r.path) r.path)) [
        | inr unclean ↦ rw unclean (own _ (inl refl))
        | inl clean ↦ rw clean (elim (Option-cases (route_of ts r)) [
          | inl unmatched ↦ rw unmatched (own _ (unrouted-OwnStatus ts r))
          | inr (t, matched) ↦
              let (q, same, taken) =
                route_of-All
                  (λ t. t.path ≡ r.path → takes t.method r.method ≡ true → Q (t.handler r s)) ts r t
                  routed matched in
              rw matched (q same taken)
        ])
      ]
