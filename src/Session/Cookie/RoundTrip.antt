-- ===== src/Session/Cookie/RoundTrip.antt =====
-- src/session/session.middleware.ts: the cookie that was set is read back, and finds its session.
use nodejs_advanced_homework.Prelude.{
  append_assoc, codes, sym, subst, ◌≡◌, refl, ap, ◌∙◌, arith, ℕ, ◌+◌, ◌<◌, true, false, Option,
  none, some, List, [], ◌∷◌, ◌++◌, String, str_eq, str_eq_iff, ok, inl, inr, All, map, find?, Lacks,
  IsSolid, split, split-append, split-last, cut, cut-append, trim, trim_solid, trim-blank,
  add_to_first, Result, Bool-cases,
}
use nodejs_advanced_homework.Session.{SessionData, Redis, create, touch}
use nodejs_advanced_homework.Session.Cookie.{
  session_cookie_of, cookie_attributes, semicolon, equals, session_cookie, same_text, Malformed,
  Request, Visit, decoded, find_cookie, read_cookie, use_session, start_session,
}

-- A name, and the value as it is sent.
abbrev pub Pair : Type 0
Pair = List ℕ × List ℕ

pub record IsCookie (p : Pair) : Type 0 where
  pub name_semicolon : Lacks semicolon p.0
  pub name_equals : Lacks equals p.0
  pub name_solid : IsSolid p.0
  pub value_semicolon : Lacks semicolon p.1
  pub value_solid : IsSolid p.1

abbrev pub show : Pair → List ℕ
show p = p.0 ++ equals ∷ p.1

-- The header of a browser.
abbrev pub header : List Pair → List ℕ
header [] = []
header (p ∷ []) = show p
header (p ∷ q ∷ ps) = show p ++ semicolon ∷ 32 ∷ header (q ∷ ps)

Lacks-append : (sep : ℕ) (xs ys : List ℕ) → Lacks sep xs → Lacks sep ys → Lacks sep (xs ++ ys)
Lacks-append sep [] ys h k = k
Lacks-append sep (x ∷ xs) ys (f, h) k = (f, Lacks-append sep xs ys h k)

show-Lacks : (p : Pair) → IsCookie p → Lacks semicolon (show p)
show-Lacks p c =
    Lacks-append semicolon p.0 (equals ∷ p.1) c.name_semicolon (refl, c.value_semicolon)

split-header :
    (p : Pair) (ps : List Pair)
    → IsCookie p
    → All IsCookie ps
    → split semicolon (header (p ∷ ps)) ≡ show p ∷ map (λ q. 32 ∷ show q) ps
unfolding split
split-header p [] c cs = split-last semicolon (show p) (show-Lacks p c)
split-header p (q ∷ ps) c (d, cs) =
    split-append semicolon (show p) (32 ∷ header (q ∷ ps)) (show-Lacks p c)
    ∙ ap (λ r. show p ∷ add_to_first 32 r) (split-header q ps d cs)

module _ (decode : List ℕ → Result Malformed String) (name : List ℕ) where
  abbrev pub value_of : List Pair → Result Malformed (Option String)
  value_of ps = elim (find? (λ p. same_text p.0 name) ps) [
    | none ↦ ok none
    | some p ↦ decoded decode p.1
  ]

  find_cookie-cons :
      (p : Pair) (n : List ℕ) (part : List ℕ) (parts : List (List ℕ)) (ps : List Pair)
      → cut equals part ≡ some (n, p.1)
      → trim n ≡ p.0
      → trim p.1 ≡ p.1
      → find_cookie decode name parts ≡ value_of ps
      → find_cookie decode name (part ∷ parts) ≡ value_of (p ∷ ps)
  unfolding find_cookie
  find_cookie-cons p n part parts ps e t v ih = elim (Bool-cases (same_text p.0 name)) [
    | inl y ↦ ground arith
    | inr f ↦ ground arith
  ]

  find_cookie-map :
      (ps : List Pair)
      → All IsCookie ps
      → find_cookie decode name (map (λ q. 32 ∷ show q) ps) ≡ value_of ps
  unfolding find_cookie
  find_cookie-map [] cs = refl
  find_cookie-map (p ∷ ps) (c, cs) =
      find_cookie-cons p (32 ∷ p.0) (32 ∷ show p) (map (λ q. 32 ∷ show q) ps) ps
        (cut-append equals (32 ∷ p.0) p.1 (refl, c.name_equals))
        (trim-blank p.0 ∙ trim_solid p.0 c.name_solid) (trim_solid p.1 c.value_solid)
        (find_cookie-map ps cs)

  read_cookie-some :
      (text : List ℕ)
      → read_cookie decode (some text) name ≡ find_cookie decode name (split semicolon text)
  unfolding read_cookie find_cookie split
  read_cookie-some [] = refl
  read_cookie-some (c ∷ cs) = refl

  -- From the header that a browser makes of its cookies, the value of the first one with the name is read.
  read_cookie-header :
      (ps : List Pair) → All IsCookie ps → read_cookie decode (some (header ps)) name ≡ value_of ps
  unfolding find_cookie split
  read_cookie-header [] cs = read_cookie-some []
  read_cookie-header (p ∷ ps) (c, cs) =
      read_cookie-some (header (p ∷ ps))
      ∙ ap (find_cookie decode name) (split-header p ps c cs)
      ∙ find_cookie-cons p p.0 (show p) (map (λ q. 32 ∷ show q) ps) ps
          (cut-append equals p.0 p.1 c.name_equals) (trim_solid p.0 c.name_solid)
          (trim_solid p.1 c.value_solid) (find_cookie-map ps cs)

module _ (decode : List ℕ → Result Malformed String) (key_for : String → String) (ttl_ms : ℕ) where
  -- The middleware gives the later request the session: with the user it was started for, its time of
  -- creation, and this request counted.
  abbrev pub IsFound :
      Request
      → Visit decode key_for ttl_ms
      → String
      → List ℕ
      → String
      → ℕ
      → ℕ
      → Redis
      → Request
      → Type 0
  IsFound req visit sid sid_text user_id now later redis req' =
      (d : SessionData) × (after : Redis) × (use_session decode key_for ttl_ms req' true later
          (start_session decode key_for ttl_ms req visit sid sid_text user_id now redis).1.1
        ≡ ok (record { session = some (sid, d); response = record { set_cookie = none } }, after))
      × (d.user_id ≡ user_id)
      × (d.created_at ≡ now)
      × (d.requests ≡ 2)

  -- The session is found under the id that the cookie's value decodes to.
  with_sid_text :
      (req : Request) (visit : Visit decode key_for ttl_ms) (sid user_id : String)
      (sid_text : List ℕ) (now later : ℕ) (redis : Redis) (req' : Request) (ps : List Pair)
      (n : List ℕ)
      → decode sid_text ≡ ok sid
      → str_eq sid "" ≡ false
      → req'.cookie ≡ some (header ps)
      → All IsCookie ps
      → find? (λ p. same_text p.0 session_cookie) ps ≡ some (n, sid_text)
      → later < now + ttl_ms
      → IsFound req visit sid sid_text user_id now later redis req'
  unfolding start_session use_session create touch
  with_sid_text req visit sid user_id sid_text now later redis req' ps n dec some_id sent cs found
        live =
      let value : value_of decode session_cookie ps ≡ ok (some sid) = ground arith in
      let read : read_cookie decode req'.cookie session_cookie ≡ ok (some sid) =
        ap (λ c. read_cookie decode c session_cookie) sent
        ∙ read_cookie-header decode session_cookie ps cs
        ∙ value in
      let d : SessionData = record {
        user_id = user_id;
        created_at = now;
        last_seen_at = later;
        requests = 2;
      } in
      let begun =
        (start_session decode key_for ttl_ms req visit sid sid_text user_id now redis).1.1 in
      (
        d,
        (touch key_for ttl_ms sid later begun).1,
        ground (arith, read, str_eq_iff (key_for sid) (key_for sid)),
        refl,
        refl,
        refl,
      )

  -- What a browser takes from the header that starts a session: its name and its value.
  set_cookie-eq :
      (req : Request) (sid_text : List ℕ) (p : Pair) (attributes : List ℕ)
      → Lacks semicolon sid_text
      → IsCookie p
      → session_cookie_of req sid_text ≡ show p ++ semicolon ∷ attributes
      → p ≡ (session_cookie, sid_text)
  unfolding session_cookie_of
  set_cookie-eq req sid_text p attributes plain c e =
      let name_value = session_cookie ++ equals ∷ sid_text in
      let ours =
        cut-append semicolon name_value (32 ∷ cookie_attributes req)
          (refl, (refl, (refl, (refl, plain)))) in
      let theirs = cut-append semicolon (show p) attributes (show-Lacks p c) in
      let shape : session_cookie_of req sid_text
          ≡ name_value ++ semicolon ∷ 32 ∷ cookie_attributes req =
        append_assoc name_value (codes "; ") (cookie_attributes req) in
      let both = sym ours ∙ ap (cut semicolon) (sym shape ∙ e) ∙ theirs in
      let shown : name_value ≡ show p = ground arith in
      let named = cut-append equals session_cookie sid_text (refl, (refl, (refl, tt))) in
      let named' = cut-append equals p.0 p.1 c.name_equals in
      let pairs = sym named ∙ ap (cut equals) shown ∙ named' in ground arith

  -- A client starts a session. Its browser keeps of the Set-Cookie header the name and the value that stand
  -- before the first semicolon, and before the time to live is over sends a request whose first cookie of
  -- that name is this one, among whatever other cookies. The middleware then gives that request the
  -- session: with the user it was started for, its time of creation, and this request counted.
  pub start_session-use_session :
      (req : Request) (visit : Visit decode key_for ttl_ms) (sid user_id : String)
      (sid_text : List ℕ) (now later : ℕ) (redis : Redis) (req' : Request) (ps : List Pair)
      (p : Pair) (attributes : List ℕ)
      → decode sid_text ≡ ok sid
      → str_eq sid "" ≡ false
      → Lacks semicolon sid_text
      → (start_session decode key_for ttl_ms req visit sid sid_text user_id now
          redis).1.0.set_cookie
        ≡ some (show p ++ semicolon ∷ attributes)
      → IsCookie p
      → req'.cookie ≡ some (header ps)
      → All IsCookie ps
      → find? (λ q. same_text q.0 p.0) ps ≡ some p
      → later < now + ttl_ms
      → IsFound req visit sid sid_text user_id now later redis req'
  unfolding start_session
  start_session-use_session req visit sid user_id sid_text now later redis req' ps p attributes dec
        some_id plain set is_cookie sent cs found live =
      let taken = set_cookie-eq req sid_text p attributes plain is_cookie (ground arith) in
      with_sid_text req visit sid user_id sid_text now later redis req' ps session_cookie dec
        some_id sent cs
        (subst (λ (q : Pair). find? (λ r. same_text r.0 q.0) ps ≡ some q) taken found) live
