-- ===== src/Tests/Codec.antt =====
-- A codec in the place of encoding/json: each value is written with its length in front.
use apexio.Base.{
  ℕ, zero, suc, ◌==◌, ◌≡◌, refl, ◌∙◌, ap, List, [], ◌∷◌, ◌++◌, ok, length, if◌then◌else◌,
}
use apexio.Base.Int.{ℤ, pos, negsuc}
use apexio.Base.Text.{Text}
use apexio.Base.Dict.{Dict}
use apexio.Schema.Wire.{
  Member, timestamp, id, log_level, message, service, host, environment, request_id, client_ip,
  user_agent, request_method, request_path, response_status, response_duration_ms, attrs, members,
  Codec, ReadsBack,
}

-- The writers put a value in front of what follows.
abbrev write_text : Text → List ℕ → List ℕ
write_text s rest = length s ∷ s ++ rest

abbrev write_int : ℤ → List ℕ → List ℕ
write_int (pos n) rest = 0 ∷ n ∷ rest
write_int (negsuc n) rest = 1 ∷ n ∷ rest

abbrev write_pairs : Dict Text → List ℕ → List ℕ
write_pairs [] rest = rest
write_pairs ((k, v) ∷ m) rest = write_text k (write_text v (write_pairs m rest))

abbrev write_member : Member → List ℕ → List ℕ
write_member (timestamp t) rest = 0 ∷ write_int t.sec (t.nsec ∷ rest)
write_member (id n) rest = 1 ∷ n ∷ rest
write_member (response_status n) rest = 2 ∷ n ∷ rest
write_member (response_duration_ms x) rest = 3 ∷ x ∷ rest
write_member (attrs m) rest = 4 ∷ length m ∷ write_pairs m rest
write_member (log_level s) rest = 5 ∷ write_text s rest
write_member (message s) rest = 6 ∷ write_text s rest
write_member (service s) rest = 7 ∷ write_text s rest
write_member (host s) rest = 8 ∷ write_text s rest
write_member (environment s) rest = 9 ∷ write_text s rest
write_member (request_id s) rest = 10 ∷ write_text s rest
write_member (client_ip s) rest = 11 ∷ write_text s rest
write_member (user_agent s) rest = 12 ∷ write_text s rest
write_member (request_method s) rest = 13 ∷ write_text s rest
write_member (request_path s) rest = 14 ∷ write_text s rest

abbrev write_members : List Member → List ℕ
write_members [] = []
write_members (m ∷ ms) = write_member m (write_members ms)

-- The readers give a value and what follows it.
abbrev split : ℕ → List ℕ → List ℕ × List ℕ
split zero l = ([], l)
split (suc n) [] = ([], [])
split (suc n) (c ∷ l) = let (s, rest) = split n l in (c ∷ s, rest)

abbrev read_text : List ℕ → Text × List ℕ
read_text [] = ([], [])
read_text (n ∷ l) = split n l

abbrev read_number : List ℕ → ℕ × List ℕ
read_number [] = (0, [])
read_number (n ∷ l) = (n, l)

abbrev read_int : List ℕ → ℤ × List ℕ
read_int [] = (pos 0, [])
read_int (sign ∷ l) = let (n, rest) = read_number l in (if sign == 0 then pos n else negsuc n, rest)

abbrev read_pairs : ℕ → List ℕ → Dict Text × List ℕ
read_pairs zero l = ([], l)
read_pairs (suc n) l =
    let (k, l') = read_text l in
    let (v, l'') = read_text l' in let (m, rest) = read_pairs n l'' in ((k, v) ∷ m, rest)

abbrev text_member : ℕ → Text → Member
text_member tag s =
    if tag == 5
    then log_level s
    else if tag == 6
    then message s
    else if tag == 7
    then service s
    else if tag == 8
    then host s
    else if tag == 9
    then environment s
    else if tag == 10
    then request_id s
    else if tag == 11
    then client_ip s
    else if tag == 12
    then user_agent s
    else if tag == 13
    then request_method s
    else request_path s

abbrev read_timestamp : List ℕ → Member × List ℕ
read_timestamp l =
    let (sec, l') = read_int l in
    let (nsec, rest) = read_number l' in (timestamp (record { sec = sec; nsec = nsec }), rest)

abbrev read_member : ℕ → List ℕ → Member × List ℕ
read_member tag l =
    if tag == 0
    then read_timestamp l
    else if tag == 1
    then (let (n, rest) = read_number l in (id n, rest))
    else if tag == 2
    then (let (n, rest) = read_number l in (response_status n, rest))
    else if tag == 3
    then (let (n, rest) = read_number l in (response_duration_ms n, rest))
    else if tag == 4
    then (let (n, l') = read_number l in let (m, rest) = read_pairs n l' in (attrs m, rest))
    else (let (s, rest) = read_text l in (text_member tag s, rest))

abbrev read_members : ℕ → List ℕ → List Member
read_members zero l = []
read_members (suc n) [] = []
read_members (suc n) (tag ∷ l) = let (m, rest) = read_member tag l in m ∷ read_members n rest

abbrev decode_members : List ℕ → List Member
decode_members [] = []
decode_members (n ∷ l) = read_members n l

split-append : (s rest : List ℕ) → split (length s) (s ++ rest) ≡ (s, rest)
split-append [] rest = refl
split-append (c ∷ s) rest = ap (λ (p : List ℕ × List ℕ). (c ∷ p.0, p.1)) (split-append s rest)

read_pairs-write_pairs :
    (m : Dict Text) (rest : List ℕ) → read_pairs (length m) (write_pairs m rest) ≡ (m, rest)
read_pairs-write_pairs [] rest = refl
read_pairs-write_pairs ((k, v) ∷ m) rest =
    rw (split-append k, split-append v, read_pairs-write_pairs m rest) refl

read_int-write_int : (n : ℤ) (rest : List ℕ) → read_int (write_int n rest) ≡ (n, rest)
read_int-write_int (pos n) rest = refl
read_int-write_int (negsuc n) rest = refl

-- The reader of one member, from its tag on.
read_one :
    (m : Member) (n : ℕ) (rest : List ℕ)
    → read_members (suc n) (write_member m rest) ≡ m ∷ read_members n rest
read_one (timestamp t) n rest =
    ap
      (λ (p : ℤ × List ℕ).
        timestamp (record { sec = p.0; nsec = (read_number p.1).0 })
        ∷ read_members n (read_number p.1).1)
      (read_int-write_int t.sec (t.nsec ∷ rest))
read_one (id k) n rest = refl
read_one (response_status k) n rest = refl
read_one (response_duration_ms x) n rest = refl
read_one (attrs m) n rest = ap (λ p. attrs p.0 ∷ read_members n p.1) (read_pairs-write_pairs m rest)
read_one (log_level s) n rest = ap (λ p. log_level p.0 ∷ read_members n p.1) (split-append s rest)
read_one (message s) n rest = ap (λ p. message p.0 ∷ read_members n p.1) (split-append s rest)
read_one (service s) n rest = ap (λ p. service p.0 ∷ read_members n p.1) (split-append s rest)
read_one (host s) n rest = ap (λ p. host p.0 ∷ read_members n p.1) (split-append s rest)
read_one (environment s) n rest =
    ap (λ p. environment p.0 ∷ read_members n p.1) (split-append s rest)
read_one (request_id s) n rest = ap (λ p. request_id p.0 ∷ read_members n p.1) (split-append s rest)
read_one (client_ip s) n rest = ap (λ p. client_ip p.0 ∷ read_members n p.1) (split-append s rest)
read_one (user_agent s) n rest = ap (λ p. user_agent p.0 ∷ read_members n p.1) (split-append s rest)
read_one (request_method s) n rest =
    ap (λ p. request_method p.0 ∷ read_members n p.1) (split-append s rest)
read_one (request_path s) n rest =
    ap (λ p. request_path p.0 ∷ read_members n p.1) (split-append s rest)

read_members-write_members : (ms : List Member) → read_members (length ms) (write_members ms) ≡ ms
read_members-write_members [] = refl
read_members-write_members (m ∷ ms) =
    read_one m (length ms) (write_members ms) ∙ ap (λ l. m ∷ l) (read_members-write_members ms)

-- The number of the members stands in front.
instance abbrev pub codec : Codec
codec = record {
  encode = λ ms. length ms ∷ write_members ms;
  decode = λ bytes. ok (decode_members bytes);
}

pub codec-ReadsBack : ReadsBack codec
codec-ReadsBack = record { decode-encode = λ e h. ap ok (read_members-write_members (members e)) }
