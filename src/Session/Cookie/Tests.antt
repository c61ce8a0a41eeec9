-- ===== src/Session/Cookie/Tests.antt =====
-- src/session/session.middleware.ts: a session that is started, and its cookie beside another one.
use nodejs_advanced_homework.Prelude.{
  ◌++◌, err, ◌≡◌, refl, arith, ℕ, true, none, some, List, [], ◌∷◌, String, ok, codes, All, split,
  trim, Result,
}
use nodejs_advanced_homework.Session.{Redis}
use nodejs_advanced_homework.Session.Cookie.{
  semicolon, session_cookie_of, Malformed, Request, Visit, read_cookie, use_session, start_session,
  find_cookie, cookie_attributes, is_loopback, malformed,
}
use nodejs_advanced_homework.Session.Cookie.RoundTrip.{
  show, IsFound, Pair, IsCookie, start_session-use_session,
}

abbrev decode : List ℕ → Result Malformed String
decode text = ok "abc"

abbrev login_page : Request
login_page = record { cookie = none; secure = true; hostname = "shop.example" }

abbrev cookies : List Pair
cookies = (codes "theme", codes "dark=1") ∷ (codes "sid", codes "abc") ∷ []

abbrev next_page : Request
next_page = record {
  cookie = some (codes "theme=dark=1; sid=abc");
  secure = true;
  hostname = "shop.example";
}

abbrev no_visit : Visit decode (λ s. s) 1000
no_visit = record { session = none; response = record { set_cookie = none } }

abbrev empty : Redis
empty = λ k. none

cookies-IsCookie : All IsCookie cookies
cookies-IsCookie = (
  record {
    name_semicolon = (refl, (refl, (refl, (refl, (refl, tt)))));
    name_equals = (refl, (refl, (refl, (refl, (refl, tt)))));
    name_solid = (refl, (refl, (refl, (refl, (refl, tt)))));
    value_semicolon = (refl, (refl, (refl, (refl, (refl, (refl, tt))))));
    value_solid = (refl, (refl, (refl, (refl, (refl, (refl, tt))))));
  },
  (
    record {
      name_semicolon = (refl, (refl, (refl, tt)));
      name_equals = (refl, (refl, (refl, tt)));
      name_solid = (refl, (refl, (refl, tt)));
      value_semicolon = (refl, (refl, (refl, tt)));
      value_solid = (refl, (refl, (refl, tt)));
    },
    tt,
  ),
)

sid_is_set :
    (start_session decode
      (λ s. s)
      1000
      login_page
      no_visit
      "abc"
      (codes "abc")
      "7"
      100
      empty).1.0.set_cookie
    ≡ some (
        show (codes "sid", codes "abc")
        ++ semicolon ∷ codes " Path=/; HttpOnly; SameSite=Lax; Secure")
unfolding start_session session_cookie_of cookie_attributes is_loopback
sid_is_set = refl

start_session-use_session_example :
    IsFound decode (λ s. s) 1000 login_page no_visit "abc" (codes "abc") "7" 100 400 empty next_page
start_session-use_session_example =
    start_session-use_session decode (λ s. s) 1000 login_page no_visit "abc" "7" (codes "abc") 100
      400 empty next_page cookies (codes "sid", codes "abc")
      (codes " Path=/; HttpOnly; SameSite=Lax; Secure") refl refl (refl, (refl, (refl, tt)))
      sid_is_set cookies-IsCookie.1.0 refl cookies-IsCookie refl (omega arith)

secure_cookie : cookie_attributes login_page ≡ codes "Path=/; HttpOnly; SameSite=Lax; Secure"
unfolding cookie_attributes is_loopback
secure_cookie = refl

broken_encoding :
    use_session (λ text. err malformed) (λ s. s) 1000 next_page true 400 empty ≡ err malformed
unfolding use_session read_cookie find_cookie split trim
broken_encoding = refl
