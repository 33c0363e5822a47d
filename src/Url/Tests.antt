-- ===== src/Url/Tests.antt =====
-- Runs of the URL codec (serverframework/util/util.cc) on "a b+=%".
use my_server_framework.Prelude.{ℕ, ◌≡◌, arith, true, List, [], ◌∷◌}
use my_server_framework.Url.{url_encode, url_decode}
use my_server_framework.Url.RoundTrip.{url_decode-url_encode}

abbrev text : List ℕ
text = 97 ∷ 32 ∷ 98 ∷ 43 ∷ 61 ∷ 37 ∷ []

url_decode-url_encode_example : url_decode (url_encode text true) true ≡ text
url_decode-url_encode_example =
    url_decode-url_encode text true
      (omega arith, (omega arith, (omega arith, (omega arith, (omega arith, (omega arith, tt))))))
