-- ===== src/Session/Cookie.antt =====
-- src/session/session.middleware.ts, src/session/session.controller.ts: the cookie of a session, the middleware that
-- reads it, and the routes that start, show and end a session. A text is the list of its code points;
-- `decodeURIComponent` and the random id are parameters.
pub mod RoundTrip
pub mod Tests
use nodejs_advanced_homework.Prelude.{
  ℕ, Bool, true, false, not, ◌&&◌, ◌||◌, Option, none, some, List, [], ◌∷◌, ◌++◌, String, str_eq,
  ◌==◌, if◌then◌else◌, codes, split, trim, cut, Result, ok, err,
}
use nodejs_advanced_homework.Session.{SessionData, Redis, create, touch, destroy}

abbrev pub semicolon : ℕ
semicolon = 59

abbrev pub equals : ℕ
equals = 61

abbrev pub session_cookie : List ℕ
session_cookie = codes "sid"

abbrev pub same_text : List ℕ → List ℕ → Bool
same_text [] [] = true
same_text [] (y ∷ ys) = false
same_text (x ∷ xs) [] = false
same_text (x ∷ xs) (y ∷ ys) = x == y && same_text xs ys

-- the URIError of a value that is not encoded properly
pub data Malformed : Type 0 where
  malformed : Malformed

-- what the middleware and the handlers read of a request
pub record Request : Type 0 where
  pub cookie : Option (List ℕ)
  pub secure : Bool
  pub hostname : String

pub record Response : Type 0 where
  pub set_cookie : Option (List ℕ)

-- UnauthorizedException
pub data NoSession : Type 0 where
  no_session : NoSession

unfoldable pub is_loopback : String → Bool
is_loopback host =
    str_eq host "localhost" || str_eq host "127.0.0.1" || str_eq host "::1" || str_eq host "[::1]"

unfoldable pub cookie_attributes : Request → List ℕ
unfolding is_loopback
cookie_attributes req =
    codes "Path=/; HttpOnly; SameSite=Lax"
    ++ (if not req.secure && is_loopback req.hostname then [] else codes "; Secure")

unfoldable pub session_cookie_of : Request → List ℕ → List ℕ
unfolding cookie_attributes
session_cookie_of req sid = codes "sid=" ++ sid ++ codes "; " ++ cookie_attributes req

unfoldable pub cleared_cookie : Request → List ℕ
unfolding cookie_attributes
cleared_cookie req = codes "sid=; " ++ cookie_attributes req ++ codes "; Max-Age=0"

-- `decode` is `decodeURIComponent`
module _ (decode : List ℕ → Result Malformed String) where
  abbrev pub decoded : List ℕ → Result Malformed (Option String)
  decoded text = elim (decode text) [ ok value ↦ ok (some value) | err e ↦ err e ]

  -- the loop over the parts of the header
  unfoldable pub find_cookie : List ℕ → List (List ℕ) → Result Malformed (Option String)
  find_cookie name [] = ok none
  find_cookie name (part ∷ parts) =
      let rest = find_cookie name parts in
      elim (cut equals part) [
        | none ↦ rest
        | some p ↦ if same_text (trim p.0) name then decoded (trim p.1) else rest
      ]

  unfoldable pub read_cookie : Option (List ℕ) → List ℕ → Result Malformed (Option String)
  unfolding find_cookie
  read_cookie none name = ok none
  read_cookie (some []) name = ok none
  read_cookie (some (c ∷ cs)) name = find_cookie name (split semicolon (c ∷ cs))

  module _ (key_for : String → String) (ttl_ms : ℕ) where
    -- the session of the request, and what the response is given
    pub record Visit : Type 0 where
      pub session : Option (String × SessionData)
      pub response : Response

    abbrev nothing : Visit
    nothing = record { session = none; response = record { set_cookie = none } }

    abbrev touched_visit : Request → String → Option SessionData → Visit
    touched_visit req sid (some session) = record {
      session = some (sid, session);
      response = record { set_cookie = none };
    }
    touched_visit req sid none = record {
      session = none;
      response = record { set_cookie = some (cleared_cookie req) };
    }

    -- the store is up or down; an empty id is no id
    abbrev with_sid : Request → Bool → ℕ → Redis → Option String → Visit × Redis
    with_sid req is_up now redis none = (nothing, redis)
    with_sid req is_up now redis (some sid) =
        if str_eq sid "" || not is_up then (nothing, redis) else (
          touched_visit req sid (touch key_for ttl_ms sid now redis).0,
          (touch key_for ttl_ms sid now redis).1,
        )

    -- `SessionMiddleware.use`: a malformed cookie throws outside its `try`
    unfoldable pub use_session : Request → Bool → ℕ → Redis → Result Malformed (Visit × Redis)
    unfolding read_cookie cleared_cookie
    use_session req is_up now redis = elim (read_cookie req.cookie session_cookie) [
      | err e ↦ err e
      | ok sid ↦ ok (with_sid req is_up now redis sid)
    ]

    abbrev without_old : Option (String × SessionData) → Redis → Redis
    without_old none redis = redis
    without_old (some s) redis = destroy key_for ttl_ms s.0 redis

    -- `POST /session`: the old session goes, and the cookie of the new one is set
    unfoldable pub start_session :
        Request → Visit → String → List ℕ → String → ℕ → Redis → SessionData × (Response × Redis)
    unfolding session_cookie_of
    start_session req visit sid sid_text user_id now redis =
        let made = create key_for ttl_ms sid user_id now (without_old visit.session redis) in
        (made.0, (record { set_cookie = some (session_cookie_of req sid_text) }, made.1))

    -- `GET /session`
    unfoldable pub current_session : Visit → Result NoSession SessionData
    current_session visit = elim visit.session [ none ↦ err no_session | some s ↦ ok s.1 ]

    -- `DELETE /session`
    unfoldable pub end_session : Request → Visit → Redis → Response × Redis
    unfolding cleared_cookie
    end_session req visit redis =
        (record { set_cookie = some (cleared_cookie req) }, without_old visit.session redis)
